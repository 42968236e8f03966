-- ===== src/Api/Roots/Reading.antt =====
-- What the list of product roots shows.
use dairycart.Prelude.{◌≡◌, ◌⊎◌, refl, inl, inr, some, List, [], ◌∷◌}
use dairycart.Models.Basics.{QueryFilter}
use dairycart.Models.Roots.{ProductRoot}
use dairycart.Storage.Storer.{Storer}
use dairycart.Http.Messages.{product_roots, list_response}
use dairycart.Http.Handler.{World, Handler, Flow, returned, fresh, ◌>>=◌, ◌>>◌}
use dairycart.Api.Rules.{Ends, internal, Ends-query_db, Ends-check_internal, Ends-assoc, Ends-pure}
use dairycart.Api.Roots.{read_products, root_list}

module _ {D : Type 0} (s : Storer D) where
  Ends-read_products :
      {G : Flow (Unit {0}) × World D → Type 0} (roots : List ProductRoot) (k : Handler D (Unit {0}))
      (w : World D)
      → G (returned, internal w)
      → Ends G k w
      → Ends G (read_products s roots >> k) w
  unfolding read_products
  Ends-read_products [] k w out go = Ends-pure _ _ _ go
  Ends-read_products (r ∷ rs) k w out go = Ends-assoc _ _ _ _ (
      Ends-query_db _ _ _ (
        Ends-assoc _ _ _ _
          (Ends-check_internal _ _ _ (λ _. out) λ _. Ends-read_products rs k w out go)))

  abbrev pub IsRootList : QueryFilter → D → World D → Type 0
  IsRootList qf d w =
      (w.db ≡ d)
      × ((w.status ≡ some 500)
          ⊎ (w.status ≡ some 200)
            × (w.body
                ≡ product_roots (
                    list_response qf (s.get_product_root_count qf d).value
                      (s.get_product_root_list qf d).value)
                  ∷ []))

  -- The list of product roots writes nothing, and answers 500 or the roots just as the store lists them:
  -- whatever products the handler reads for a root are not in the answer.
  pub root_list-unattached :
      (qf : QueryFilter) (d : D) → let (flow, w) = root_list s qf (fresh d) in IsRootList qf d w
  unfolding root_list
  root_list-unattached qf d = run.ends
    where
      G : Flow (Unit {0}) × World D → Type 0
      G (flow, w) = IsRootList qf d w

      run : Ends G (root_list s qf) (fresh d)
      run = Ends-query_db _ _ _ (
          Ends-check_internal _ _ _ (λ _. (refl, inl refl))
            λ _. Ends-query_db _ _ _ (
              Ends-check_internal _ _ _ (λ _. (refl, inl refl))
                λ _.
                  Ends-read_products (s.get_product_root_list qf d).value _ _ (refl, inl refl)
                    (record { ends = unfold ◌>>=◌ in (refl, inr (refl, refl)) })))
