-- ===== src/Postgres/Database/Cascade.antt =====
-- What deleting a product root does to the tables.
use dairycart.Prelude.{
  ℕ, String, ◌≡◌, ◌∙◌, refl, sym, ap, subst, Bool, true, false, not, ◌&&◌, ◌==◌, Option, some, ◌⊎◌,
  inl, inr,
}
use dairycart.Models.Basics.{Time}
use dairycart.Storage.Answers.{Err, nil, no_rows, failed, is_ok, is_failure}
use dairycart.Storage.Storer.{Storer}
use dairycart.Http.Handler.{World, fresh}
use dairycart.Api.Numbers.{path_id}
use dairycart.Api.Rules.{Verdict, IsRefused}
use dairycart.Api.Roots.{root_deletion}
use dairycart.Api.Roots.Atomic.{root_deletion_atomic, root_deletion_succeeds, IsArchived}
use dairycart.Postgres.Rows.{and-false, any, any-map_where-none, any-map_where}
use dairycart.Postgres.Statements.{Queries, is_unarchived}
use dairycart.Postgres.Options.{
  option_of_root, archived_product_option, archive_product_options_with_product_root_id,
}
use dairycart.Postgres.OptionValues.{
  value_of_root, archived_product_option_value, archive_product_option_values_with_product_root_id,
}
use dairycart.Postgres.VariantBridges.{
  bridge_of_root, archived_product_variant_bridge,
  archive_product_variant_bridges_with_product_root_id,
}
use dairycart.Postgres.Products.{
  product_of_root, archived_product, archive_products_with_product_root_id,
}
use dairycart.Postgres.Roots.{archived_product_root, delete_product_root}
use dairycart.Postgres.Database.{Database, postgres}
use dairycart.Postgres.Database.Writing.{writing-put}

-- No live row belongs to the root, and the root itself is archived.
abbrev pub IsGone : ℕ → Database → Type 0
IsGone root d =
    (any (λ b. is_unarchived b.archived_on && (bridge_of_root d.products.rows root).holds b)
        d.product_variant_bridges.rows
      ≡ false)
    × (any (λ v. is_unarchived v.archived_on && (value_of_root d.product_options.rows root).holds v)
          d.product_option_values.rows
        ≡ false)
    × (any (λ o. is_unarchived o.archived_on && (option_of_root root).holds o)
          d.product_options.rows
        ≡ false)
    × (any (λ p. is_unarchived p.archived_on && (product_of_root root).holds p) d.products.rows
        ≡ false)
    × (any (λ r. is_unarchived r.archived_on && r.id == root) d.product_roots.rows ≡ false)

swapped : (a b : Bool) → a && b ≡ false → b && a ≡ false
swapped true true e = cc
swapped true false e = refl
swapped false true e = refl
swapped false false e = refl

module _ (now : Time) (root : ℕ) where
  abbrev bridges_archived : Database → Database
  bridges_archived d = record d {
    product_variant_bridges =
        (archive_product_variant_bridges_with_product_root_id now d.products.rows root
          d.product_variant_bridges).1;
  }

  abbrev values_archived : Database → Database
  values_archived d = record d {
    product_option_values =
        (archive_product_option_values_with_product_root_id now d.product_options.rows root
          d.product_option_values).1;
  }

  abbrev options_archived : Database → Database
  options_archived d = record d {
    product_options = (archive_product_options_with_product_root_id now root d.product_options).1;
  }

  abbrev products_archived : Database → Database
  products_archived d = record d {
    products = (archive_products_with_product_root_id now root d.products).1;
  }

  abbrev root_archived : Database → Database
  root_archived d = record d { product_roots = (delete_product_root now root d.product_roots).1 }

  archived-IsGone :
      (d : Database)
      → IsGone root (
          root_archived
            (products_archived (options_archived (values_archived (bridges_archived d)))))
  unfolding archive_product_variant_bridges_with_product_root_id
      archive_product_option_values_with_product_root_id
      archive_product_options_with_product_root_id archive_products_with_product_root_id
      delete_product_root
  archived-IsGone d = (
    any-map_where-none _ (bridge_of_root d.products.rows root).holds
        (archived_product_variant_bridge now) (λ b e. refl)
        (λ b e.
          rw
            (
              any-map_where (λ p. p.id == b.product_id && p.product_root_id == root)
                  (product_of_root root).holds (archived_product now) (λ p. refl) d.products.rows,
              e,
            )
            (and-false _))
        d.product_variant_bridges.rows,
    any-map_where-none _ (value_of_root d.product_options.rows root).holds
        (archived_product_option_value now) (λ b e. refl)
        (λ v e.
          rw
            (
              any-map_where (λ o. o.id == v.product_option_id && o.product_root_id == root) _
                  (archived_product_option now) (λ o. refl) d.product_options.rows,
              e,
            )
            (and-false _))
        d.product_option_values.rows,
    any-map_where-none _ _ (archived_product_option now) (λ o e. refl)
        (λ o e. swapped ((option_of_root root).holds o) (is_unarchived o.archived_on) e)
        d.product_options.rows,
    any-map_where-none _ (product_of_root root).holds (archived_product now) (λ p e. refl)
        (λ p e. rw e (and-false _)) d.products.rows,
    any-map_where-none _ (λ r. r.id == root) (archived_product_root now) (λ r e. refl)
        (λ r e. rw e (and-false _)) d.product_roots.rows,
  )

succeed_lem :
    (a b c d e f g h : Bool)
    → a && b && not c && not d && not e && not f && g && h ≡ true
    → (a ≡ true) × (c ≡ false) × (d ≡ false) × (e ≡ false) × (f ≡ false) × (g ≡ true)
succeed_lem true true false false false false true h p = (refl, refl, refl, refl, refl, refl)
succeed_lem false b c d e f g h p = cc
succeed_lem true false c d e f g h p = cc
succeed_lem true true true d e f g h p = cc
succeed_lem true true false true e f g h p = cc
succeed_lem true true false false true f g h p = cc
succeed_lem true true false false false true g h p = cc
succeed_lem true true false false false false false h p = cc

ok-is_failure : (e : Err) → is_ok e ≡ true → is_failure e ≡ false
ok-is_failure nil p = refl
ok-is_failure no_rows p = refl
ok-is_failure (failed m) p = cc

module _ {Q : Type 0} (sq : Queries Q) (violated : Database → Option String)
    (begin_err commit_err : Database → Err) (now : Time) (id_str : String) (d : Database) where
  abbrev s : Storer Database
  s = postgres sq violated begin_err commit_err now

  abbrev pub deleted_id : ℕ
  deleted_id = (s.get_product_root (path_id id_str) d).value.id

  abbrev d₁ : Database
  d₁ = (s.archive_product_variant_bridges_with_product_root_id deleted_id d).1

  abbrev d₂ : Database
  d₂ = (s.archive_product_option_values_with_product_root_id deleted_id d₁).1

  abbrev d₃ : Database
  d₃ = (s.archive_product_options_with_product_root_id deleted_id d₂).1

  abbrev d₄ : Database
  d₄ = (s.archive_products_with_product_root_id deleted_id d₃).1

  abbrev d₅ : Database
  d₅ = (s.delete_product_root deleted_id d₄).1

  d₁_lem :
      is_failure (s.archive_product_variant_bridges_with_product_root_id deleted_id d).0.err ≡ false
      → d₁ ≡ bridges_archived now deleted_id d
  unfolding postgres
  d₁_lem = writing-put violated _ _ _ _ d

  d₂_lem :
      is_failure (s.archive_product_option_values_with_product_root_id deleted_id d₁).0.err ≡ false
      → d₂ ≡ values_archived now deleted_id d₁
  unfolding postgres
  d₂_lem = writing-put violated _ _ _ _ d₁

  d₃_lem :
      is_failure (s.archive_product_options_with_product_root_id deleted_id d₂).0.err ≡ false
      → d₃ ≡ options_archived now deleted_id d₂
  unfolding postgres
  d₃_lem = writing-put violated _ _ _ _ d₂

  d₄_lem :
      is_failure (s.archive_products_with_product_root_id deleted_id d₃).0.err ≡ false
      → d₄ ≡ products_archived now deleted_id d₃
  unfolding postgres
  d₄_lem = writing-put violated _ _ _ _ d₃

  d₅_lem :
      is_failure (s.delete_product_root deleted_id d₄).0.err ≡ false
      → d₅ ≡ root_archived now deleted_id d₄
  unfolding postgres
  d₅_lem = writing-put violated _ _ _ _ d₄

  steps :
      root_deletion_succeeds s id_str d ≡ true
      → (is_ok (s.get_product_root (path_id id_str) d).err ≡ true)
        × (is_failure (s.archive_product_variant_bridges_with_product_root_id deleted_id d).0.err
            ≡ false)
        × (is_failure (s.archive_product_option_values_with_product_root_id deleted_id d₁).0.err
            ≡ false)
        × (is_failure (s.archive_product_options_with_product_root_id deleted_id d₂).0.err ≡ false)
        × (is_failure (s.archive_products_with_product_root_id deleted_id d₃).0.err ≡ false)
        × (is_ok (s.delete_product_root deleted_id d₄).0.err ≡ true)
  steps =
      succeed_lem (is_ok (s.get_product_root (path_id id_str) d).err) (is_ok (s.begin_err d))
        (is_failure (s.archive_product_variant_bridges_with_product_root_id deleted_id d).0.err)
        (is_failure (s.archive_product_option_values_with_product_root_id deleted_id d₁).0.err)
        (is_failure (s.archive_product_options_with_product_root_id deleted_id d₂).0.err)
        (is_failure (s.archive_products_with_product_root_id deleted_id d₃).0.err)
        (is_ok (s.delete_product_root deleted_id d₄).0.err) (is_ok (s.commit_err d₅))

  d₅_chain :
      root_deletion_succeeds s id_str d ≡ true
      → d₅
        ≡ root_archived now deleted_id (
            products_archived now deleted_id (
              options_archived now deleted_id
                (values_archived now deleted_id (bridges_archived now deleted_id d))))
  d₅_chain e =
      let (_, e₁, e₂, e₃, e₄, e₅) = steps e in
      d₅_lem (ok-is_failure (s.delete_product_root deleted_id d₄).0.err e₅)
      ∙ ap (root_archived now deleted_id) (
          d₄_lem e₄
          ∙ ap (products_archived now deleted_id) (
              d₃_lem e₃
              ∙ ap (options_archived now deleted_id)
                  (d₂_lem e₂ ∙ ap (values_archived now deleted_id) (d₁_lem e₁))))

  -- Deleting a product root in PostgreSQL is refused with nothing written; or it answers 200 and no product, option,
  -- option value or variant bridge of the root that was found is left unarchived, nor the root itself.
  pub root_deletion-IsGone :
      let w = (root_deletion s id_str (fresh d)).1 in
      IsRefused d w ⊎ (w.status ≡ some 200) × IsGone deleted_id w.db
  root_deletion-IsGone = by_verdict (root_deletion_atomic s id_str d)
    where
      w : World Database
      w = (root_deletion s id_str (fresh d)).1

      by_verdict :
          Verdict (root_deletion_succeeds s id_str d) (IsArchived s id_str d w) (IsRefused d w)
          → IsRefused d w ⊎ (w.status ≡ some 200) × IsGone deleted_id w.db
      by_verdict (inr (_, refused)) = inl refused
      by_verdict (inl (ok, (db, _, status, _))) = inr (
        status,
        subst (IsGone deleted_id) (sym (db ∙ d₅_chain ok)) (archived-IsGone now deleted_id d),
      )
