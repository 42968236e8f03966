-- ===== src/Api/Variants/Build.antt =====
-- `buildProductsFromOptions` over the odometer. The fuel is one more than the number of choices.
use dairycart.Prelude.{
  ℕ, zero, suc, ◌<◌, ◌≡◌, refl, ap, ◌∙◌, sym, String, List, [], ◌∷◌, ◌++◌, map, append_assoc,
  append-nil, arith, length, ltb, concat, join, Bool, true, false, Bool-cases, none, some, inl, inr,
}
use dairycart.Models.Options.{ProductOption, ProductOptionValue}
use dairycart.Models.Products.{Product, ProductCreationInput}
use dairycart.Api.Inputs.{new_product_from_creation_input}
use dairycart.Api.Variants.Odometer.{
  Run, panicked, finished, zeros, bump, next, pick, in_range, loop,
}
use dairycart.Api.Variants.Product.{volume}
use dairycart.Api.Variants.Remaining.{
  remaining, IsInside, IsFilled, Advances, advance, remaining-past,
}

pub record OptionPlaceholder : Type 0 where
  pub id : ℕ
  pub summary : String
  pub value : String
  pub original_value : ProductOptionValue

unfoldable pub placeholder : ProductOption → ProductOptionValue → OptionPlaceholder
placeholder o v = record {
  id = v.id;
  summary = concat (o.name ∷ ": " ∷ v.value ∷ []);
  value = v.value;
  original_value = v;
}

-- optionData
unfoldable pub option_data : List ProductOption → List (List OptionPlaceholder)
option_data = map (λ o. map (placeholder o) o.values)

module _ (to_lower : String → String) (input : ProductCreationInput) where
  -- The product of one row. `to_lower` is strings.ToLower.
  unfoldable pub variant : List OptionPlaceholder → Product
  variant row =
      let template = new_product_from_creation_input input in
      record template {
        option_summary = join ", " (map (λ ph. ph.summary) row);
        sku = concat (input.sku ∷ "_" ∷ join "_" (map (λ ph. to_lower ph.value) row) ∷ []);
        applicable_option_values = map (λ ph. ph.original_value) row;
      }

  unfoldable pub build_products_from_options : List ProductOption → Run (List Product)
  build_products_from_options created_options =
      let sl = option_data created_options in loop variant (suc (volume sl)) (zeros sl) sl []

module _ {A B : Type 0} (build : List A → B) where
  loop-step :
      (fuel i : ℕ) (ix : List ℕ) (s : List A) (sl : List (List A)) (out : List B) {row : List A}
      → ltb i (length s) ≡ true
      → pick (i ∷ ix) (s ∷ sl) ≡ some row
      → loop build (suc fuel) (i ∷ ix) (s ∷ sl) out
        ≡ loop build fuel (next (i ∷ ix) (s ∷ sl)) (s ∷ sl) (out ++ build row ∷ [])
  unfolding loop in_range
  loop-step fuel i ix s sl out more picked = ground arith

  pub loop-end :
      (fuel i : ℕ) (ix : List ℕ) (s : List A) (sl : List (List A)) (out : List B)
      → ltb i (length s) ≡ false
      → loop build (suc fuel) (i ∷ ix) (s ∷ sl) out ≡ finished out
  unfolding loop in_range
  loop-end fuel i ix s sl out last = ground arith

  pub loop-panic :
      (fuel i : ℕ) (ix : List ℕ) (s : List A) (sl : List (List A)) (out : List B)
      → ltb i (length s) ≡ true
      → pick (i ∷ ix) (s ∷ sl) ≡ none
      → loop build (suc fuel) (i ∷ ix) (s ∷ sl) out ≡ panicked
  unfolding loop in_range
  loop-panic fuel i ix s sl out more missing = ground arith

  unfoldable pub Finishes : ℕ → List ℕ → List (List A) → List B → Type 0
  Finishes fuel ix sl out =
      loop build fuel ix sl out ≡ finished (out ++ map build (remaining ix sl))

  -- From an index vector whose later indices are inside their lists, the loop appends the products of
  -- the remaining rows.
  pub loop-remaining :
      (fuel i : ℕ) (ix : List ℕ) (s : List A) (sl : List (List A)) (out : List B)
      → IsInside ix sl
      → IsFilled sl
      → length (remaining (i ∷ ix) (s ∷ sl)) < fuel
      → Finishes fuel (i ∷ ix) (s ∷ sl) out
  unfolding Finishes next
  loop-remaining zero i ix s sl out h f lt = absurd (omega arith)
  loop-remaining (suc fuel) i ix s sl out h f lt = elim (Bool-cases (ltb i (length s))) [
    | inl more ↦
        let (row, picked, adv) = advance i ix s sl (ground arith) h f in
        loop-step fuel i ix s sl out more picked
        ∙ onward (bump true (i ∷ ix) (s ∷ sl)) row adv
            (λ i' ix'. loop-remaining fuel i' ix' s sl (out ++ build row ∷ []))
    | inr last ↦
        loop-end fuel i ix s sl out last
        ∙ ap finished (sym (rw (remaining-past i ix s sl (ground arith)) (append-nil out)))
  ]
    where
      onward :
          (r : List ℕ × Bool) (row : List A)
          → Advances (i ∷ ix) s sl row r
          → ((i' : ℕ) (ix' : List ℕ)
              → IsInside ix' sl
              → IsFilled sl
              → length (remaining (i' ∷ ix') (s ∷ sl)) < fuel
              → Finishes fuel (i' ∷ ix') (s ∷ sl) (out ++ build row ∷ []))
          → loop build fuel r.0 (s ∷ sl) (out ++ build row ∷ [])
            ≡ finished (out ++ map build (remaining (i ∷ ix) (s ∷ sl)))
      onward ((i' ∷ ix'), c) row (e, inside) rec =
          rec i' ix' inside f (omega (arith, ap (length {A = List A}) e))
          ∙ ap finished (
              append_assoc out (build row ∷ []) (map build (remaining (i' ∷ ix') (s ∷ sl)))
              ∙ sym (rw e refl))
      onward ([], c) row bad rec = absurd bad
