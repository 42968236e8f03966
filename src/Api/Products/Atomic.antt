-- ===== src/Api/Products/Atomic.antt =====
-- Deleting a product is all or nothing.
use dairycart.Prelude.{String, Bool, not, ◌&&◌, refl, inl, inr, List, some, arith}
use dairycart.Models.Webhooks.{Webhook}
use dairycart.Models.Products.{Product}
use dairycart.Storage.Answers.{is_ok, is_failure, Answer}
use dairycart.Storage.Storer.{Storer}
use dairycart.Http.Messages.{product}
use dairycart.Http.Handler.{fresh, ◌>>=◌}
use dairycart.Api.Rules.{
  Ends, Verdict, IsRefused, IsCommitted, accept, refuse, Ends-query_db, Ends-exec_tx,
  Ends-check_row, Ends-check_tx, Ends-check_tx_rows, Ends-check_internal_rows, Ends-begin,
  Ends-commit,
}
use dairycart.Api.Products.Handlers.{product_deletion, hook_calls}

module _ {D : Type 0} (s : Storer D) (sku : String) (d : D) where
  abbrev found : Product
  found = (s.get_product_by_sku sku d).value

  -- The database when both archiving statements have run, and the archived product.
  abbrev pub bridges_archived : D
  bridges_archived = (s.delete_product_variant_bridge_by_product_id found.id d).1

  abbrev pub product_archived : D
  product_archived = (s.delete_product found.id bridges_archived).1

  abbrev pub archived_product : Product
  archived_product =
      let p = found in
      record p { archived_on = some (s.delete_product found.id bridges_archived).0.value }

  -- Every statement up to the commit succeeds; there may be no bridges.
  abbrev pub deletion_succeeds : Bool
  deletion_succeeds =
      is_ok (s.get_product_by_sku sku d).err
      && is_ok (s.begin_err d)
      && not (is_failure (s.delete_product_variant_bridge_by_product_id found.id d).0.err)
      && is_ok (s.delete_product found.id bridges_archived).0.err
      && is_ok (s.commit_err product_archived)

  abbrev hooks : Answer (List Webhook)
  hooks = s.get_webhooks_by_event_type "product_archived" product_archived

  -- Deleting a product whose row is found, with every statement succeeding, commits both archiving
  -- statements, of the bridges and of the product, and starts a call for every webhook of the event
  -- `product_archived`; if reading those fails, the answer is an error though the product is
  -- archived. If any statement fails, nothing is written. No transaction stays open.
  pub product_deletion_atomic :
      let w = (product_deletion s sku (fresh d)).1 in
      Verdict deletion_succeeds
        (IsCommitted product_archived hooks.err 200
          (hook_calls hooks.value (product archived_product))
          w)
        (IsRefused d w)
  unfolding product_deletion
  product_deletion_atomic = run.ends
    where
      run :
          Ends
            (λ r.
              Verdict deletion_succeeds
                (IsCommitted product_archived hooks.err 200
                  (hook_calls hooks.value (product archived_product))
                  r.1)
                (IsRefused d r.1))
            (product_deletion s sku)
            (fresh d)
      run = Ends-query_db _ _ _ (
          Ends-check_row _ _ _ _ _ (λ e. refuse (ground arith) (refl, refl, refl, inr (inl refl)))
            (λ e. refuse (ground arith) (refl, refl, refl, inr (inr refl)))
            λ e.
              Ends-begin s _ _ (λ e'. refuse (ground arith) (refl, refl, refl, inr (inr refl)))
                λ e'. Ends-exec_tx _ _ _ refl (
                  Ends-check_tx_rows _ _ _
                    (λ b. refuse (ground arith) (refl, refl, refl, inr (inr refl)))
                    λ b. Ends-exec_tx _ _ _ refl (
                      Ends-check_tx _ _ _
                        (λ p. refuse (ground arith) (refl, refl, refl, inr (inr refl)))
                        λ p.
                          Ends-commit s _ _ refl
                            (λ c. refuse (ground arith) (refl, refl, refl, inr (inr refl)))
                            λ c. Ends-query_db _ _ _ (
                              Ends-check_internal_rows _ _ _
                                (λ h. accept (ground arith) (refl, refl, inr (h, refl, refl)))
                                (λ h. record {
                                  ends =
                                      unfold ◌>>=◌ in
                                      accept (ground arith) (refl, refl, inl (refl, refl));
                                })))))
