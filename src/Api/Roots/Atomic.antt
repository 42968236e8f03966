-- ===== src/Api/Roots/Atomic.antt =====
-- Deleting a product root is all or nothing.
use dairycart.Prelude.{String, Bool, not, ◌&&◌, ◌≡◌, refl, inl, inr, [], ◌∷◌, some, none, arith}
use dairycart.Models.Roots.{ProductRoot}
use dairycart.Storage.Answers.{is_ok, is_failure}
use dairycart.Storage.Storer.{Storer}
use dairycart.Http.Messages.{product_root}
use dairycart.Http.Handler.{World, fresh, ◌>>=◌}
use dairycart.Api.Numbers.{path_id}
use dairycart.Api.Rules.{
  Ends, Verdict, IsRefused, accept, refuse, Ends-query_db, Ends-exec_tx, Ends-check_row,
  Ends-check_tx, Ends-check_tx_rows, Ends-begin, Ends-commit,
}
use dairycart.Api.Roots.{root_deletion}

module _ {D : Type 0} (s : Storer D) (id_str : String) (d : D) where
  abbrev found : ProductRoot
  found = (s.get_product_root (path_id id_str) d).value

  -- The database after each of the five archiving statements.
  abbrev bridges_gone : D
  bridges_gone = (s.archive_product_variant_bridges_with_product_root_id found.id d).1

  abbrev values_gone : D
  values_gone = (s.archive_product_option_values_with_product_root_id found.id bridges_gone).1

  abbrev options_gone : D
  options_gone = (s.archive_product_options_with_product_root_id found.id values_gone).1

  abbrev products_gone : D
  products_gone = (s.archive_products_with_product_root_id found.id options_gone).1

  abbrev pub root_gone : D
  root_gone = (s.delete_product_root found.id products_gone).1

  -- Every statement succeeds, but that the first four may find nothing to archive.
  abbrev pub root_deletion_succeeds : Bool
  root_deletion_succeeds =
      is_ok (s.get_product_root (path_id id_str) d).err
      && is_ok (s.begin_err d)
      && not (is_failure (s.archive_product_variant_bridges_with_product_root_id found.id d).0.err)
      && not (
          is_failure
            (s.archive_product_option_values_with_product_root_id found.id bridges_gone).0.err)
      && not
          (is_failure (s.archive_product_options_with_product_root_id found.id values_gone).0.err)
      && not (is_failure (s.archive_products_with_product_root_id found.id options_gone).0.err)
      && is_ok (s.delete_product_root found.id products_gone).0.err
      && is_ok (s.commit_err root_gone)

  abbrev archived_root : ProductRoot
  archived_root =
      let r = found in
      record r { archived_on = some (s.delete_product_root found.id products_gone).0.value }

  -- The five statements are committed together and the archived root is the answer.
  abbrev pub IsArchived : World D → Type 0
  IsArchived w =
      (w.db ≡ root_gone)
      × (w.tx ≡ none)
      × (w.status ≡ some 200)
      × (w.body ≡ product_root archived_root ∷ [])

  -- Deleting a product root commits the five archiving statements together, of its bridges, option
  -- values, options and products and of the root itself, if all of them succeed or find nothing to
  -- archive; otherwise nothing is written and the answer is an error. No transaction stays open.
  pub root_deletion_atomic :
      let w = (root_deletion s id_str (fresh d)).1 in
      Verdict root_deletion_succeeds (IsArchived w) (IsRefused d w)
  unfolding root_deletion
  root_deletion_atomic = run.ends
    where
      run :
          Ends
            (λ r. Verdict root_deletion_succeeds (IsArchived r.1) (IsRefused d r.1))
            (root_deletion s id_str)
            (fresh d)
      run = Ends-query_db _ _ _ (
          Ends-check_row _ _ _ _ _ (λ e. refuse (ground arith) (refl, refl, refl, inr (inl refl)))
            (λ e. refuse (ground arith) (refl, refl, refl, inr (inr refl)))
            λ e.
              Ends-begin s _ _ (λ e₁. refuse (ground arith) (refl, refl, refl, inr (inr refl)))
                λ e₁. Ends-exec_tx _ _ _ refl (
                  Ends-check_tx_rows _ _ _
                    (λ e₂. refuse (ground arith) (refl, refl, refl, inr (inr refl)))
                    λ e₂. Ends-exec_tx _ _ _ refl (
                      Ends-check_tx_rows _ _ _
                        (λ e₃. refuse (ground arith) (refl, refl, refl, inr (inr refl)))
                        λ e₃. Ends-exec_tx _ _ _ refl (
                          Ends-check_tx_rows _ _ _
                            (λ e₄. refuse (ground arith) (refl, refl, refl, inr (inr refl)))
                            λ e₄. Ends-exec_tx _ _ _ refl (
                              Ends-check_tx_rows _ _ _
                                (λ e₅. refuse (ground arith) (refl, refl, refl, inr (inr refl)))
                                λ e₅. Ends-exec_tx _ _ _ refl (
                                  Ends-check_tx _ _ _
                                    (λ e₆. refuse (ground arith) (refl, refl, refl, inr (inr refl)))
                                    λ e₆.
                                      Ends-commit s _ _ refl
                                        (λ e₇.
                                          refuse (ground arith) (refl, refl, refl, inr (inr refl)))
                                        λ e₇. record {
                                          ends =
                                              unfold ◌>>=◌ in
                                              accept (ground arith) (refl, refl, refl, refl);
                                        }))))))
