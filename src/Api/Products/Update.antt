-- ===== src/Api/Products/Update.antt =====
-- Which row `buildProductUpdateHandler` of api/v1/products.go writes, and whom it tells.
use dairycart.Prelude.{
  String, Bool, true, ◌≡◌, ◌⊎◌, ◌==◌, if◌then◌else◌, refl, inl, inr, some, ◌∷◌, [], List,
}
use dairycart.Models.Products.{Product}
use dairycart.Models.Webhooks.{Webhook}
use dairycart.Storage.Answers.{Answer}
use dairycart.Storage.Storer.{Storer}
use dairycart.Http.Messages.{product}
use dairycart.Http.Handler.{World, Flow, fresh, ◌>>=◌}
use dairycart.Api.Inputs.{restricted_string_is_valid}
use dairycart.Api.Merging.{FillsId}
use dairycart.Api.Rules.{
  Ends, IsRefused, Ends-query_db, Ends-exec_db, Ends-check_body, Ends-check_internal,
  Ends-check_internal_rows, Ends-check_row, Ends-when_return, notify_of_invalid_request_body_lem,
  not-false,
}
use dairycart.Api.Products.Handlers.{product_update, hook_calls}

module _ {D : Type 0} (s : Storer D) (merge : Product → Product → Product) where
  abbrev stored : String → D → Product
  stored sku d = (s.get_product_by_sku sku d).value

  abbrev hooks : World D → Answer (List Webhook)
  hooks w = s.get_webhooks_by_event_type "product_updated" w.db

  abbrev stamped : Product → D → Product
  stamped new d = record new { updated_on = some (s.update_product new d).0.value }

  abbrev pub IsProductUpdate : String → Product → D → World D → Type 0
  IsProductUpdate sku body d w =
      let new = merge body (stored sku d) in
      IsRefused d w
      ⊎ (restricted_string_is_valid new.sku ≡ true)
        × (new.id ≡ (if body.id == 0 then (stored sku d).id else body.id))
        × (w.db ≡ (s.update_product new d).1)
        × ((w.status ≡ some 200)
              × (w.body ≡ product (stamped new d) ∷ [])
              × (w.hooks ≡ hook_calls (hooks w).value (product (stamped new d)))
            ⊎ (w.status ≡ some 500) × (w.hooks ≡ []))

  -- Updating a product is refused with nothing written and nobody called; or the sku of the merged row is
  -- valid and that row is written, under the id in the request's body if it has one and else under the id
  -- of the product that the path names. With status 200 the answer is the row as it was written, and
  -- every webhook of the event `product_updated` is called with it; else nobody is called.
  pub product_update-id :
      FillsId (λ p. p.id) merge
      → (is_zero : Product → Bool) (sku : String) (body : Answer Product) (d : D)
      → let (flow, w) = product_update s is_zero merge sku body (fresh d) in
        IsProductUpdate sku body.value d w
  unfolding product_update
  product_update-id fills is_zero sku body d = run.ends
    where
      G : Flow (Unit {0}) × World D → Type 0
      G (flow, w) = IsProductUpdate sku body.value d w

      run : Ends G (product_update s is_zero merge sku body) (fresh d)
      run =
          Ends-check_body _ _ _ (λ _. inl (refl, refl, refl, inl refl))
            λ _. Ends-query_db _ _ _ (
              Ends-check_row _ _ _ _ _ (λ _. inl (refl, refl, refl, inr (inl refl)))
                (λ _. inl (refl, refl, refl, inr (inr refl)))
                λ _.
                  Ends-when_return _ _ _ _ _ (notify_of_invalid_request_body_lem _ _)
                    (λ _. inl (refl, refl, refl, inl refl))
                    λ valid. Ends-exec_db _ _ _ (
                      Ends-check_internal _ _ _
                        (λ _. inr (not-false _ valid, fills.merged_id _ _, refl, inr (refl, refl)))
                        λ _. Ends-query_db _ _ _ (
                          Ends-check_internal_rows _ _ _
                            (λ _.
                              inr (not-false _ valid, fills.merged_id _ _, refl, inr (refl, refl)))
                            λ _. record {
                              ends =
                                  unfold ◌>>=◌ in
                                  inr (
                                    not-false
                                        (restricted_string_is_valid
                                          (merge body.value (stored sku d)).sku)
                                        valid,
                                    fills.merged_id _ _,
                                    refl,
                                    inl (refl, refl, refl),
                                  );
                            })))
