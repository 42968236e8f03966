-- ===== src/Api/Discounts/Update.antt =====
-- Which row `buildDiscountUpdateHandler` of api/v1/discounts.go writes.
use dairycart.Prelude.{String, Bool, refl, inl, inr}
use dairycart.Models.Discounts.{Discount}
use dairycart.Storage.Answers.{Answer}
use dairycart.Storage.Storer.{Storer}
use dairycart.Http.Handler.{World, Flow, fresh, ◌>>=◌}
use dairycart.Api.Numbers.{path_id}
use dairycart.Api.Merging.{FillsId, IsUpdate}
use dairycart.Api.Rules.{
  Ends, Ends-query_db, Ends-exec_db, Ends-check_body, Ends-check_internal, Ends-check_row,
}
use dairycart.Api.Discounts.{discount_update}

module _ {D : Type 0} (s : Storer D) where
  -- Updating a discount is refused with nothing written, or it writes the request's body merged with the row
  -- that the path names. The id of what is written is the body's own wherever the body has one, and the
  -- id of the row in the path only if it has none.
  pub discount_update-id :
      (is_zero : Discount → Bool) (merge : Discount → Discount → Discount)
      → FillsId (λ x. x.id) merge
      → (id_str : String) (body : Answer Discount) (d : D)
      → let found = (s.get_discount (path_id id_str) d).value in
        let (flow, w) = discount_update s is_zero merge id_str body (fresh d) in
        IsUpdate (λ x. x.id) s.update_discount body.value found (merge body.value found) d w
  unfolding discount_update
  discount_update-id is_zero merge fills id_str body d = run.ends
    where
      found : Discount
      found = (s.get_discount (path_id id_str) d).value

      G : Flow (Unit {0}) × World D → Type 0
      G (flow, w) =
          IsUpdate (λ x. x.id) s.update_discount body.value found (merge body.value found) d w

      run : Ends G (discount_update s is_zero merge id_str body) (fresh d)
      run =
          Ends-check_body _ _ _ (λ _. inl (refl, refl, refl, inl refl))
            λ _. Ends-query_db _ _ _ (
              Ends-check_row _ _ _ _ _ (λ _. inl (refl, refl, refl, inr (inl refl)))
                (λ _. inl (refl, refl, refl, inr (inr refl)))
                λ _. Ends-exec_db _ _ _ (
                  Ends-check_internal _ _ _ (λ _. inr (fills.merged_id _ _, refl, inr refl))
                    λ _. record {
                      ends = unfold ◌>>=◌ in inr (fills.merged_id _ _, refl, inl refl);
                    }))
