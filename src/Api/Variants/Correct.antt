-- ===== src/Api/Variants/Correct.antt =====
-- What `buildProductsFromOptions` returns, and when it panics.
use mathlib.Core.List.{Mem, Mem-prop, mem-map_of_mem, exists_of_mem-map}
use mathlib.Core.Logic.{◌↔◌, ∥∥₁_map, ∥∥₁_elim}
use dairycart.Prelude.{
  suc, ◌<◌, ◌≡◌, refl, sym, subst, ap, ◌∙◌, String, List, [], ◌∷◌, map, arith, length, length-map,
  All, none,
}
use dairycart.Models.Options.{ProductOption}
use dairycart.Models.Products.{Product, ProductCreationInput}
use dairycart.Api.Variants.Odometer.{panicked, finished, zeros, pick}
use dairycart.Api.Variants.Product.{product, volume, length-product}
use dairycart.Api.Variants.Remaining.{IsFilled, IsInside-zeros, remaining-zeros}
use dairycart.Api.Variants.Choices.{IsChoice, mem-product}
use dairycart.Api.Variants.Build.{
  OptionPlaceholder, placeholder, option_data, variant, build_products_from_options, Finishes,
  loop-remaining, loop-panic,
}

-- Every option has a value.
abbrev pub HaveValues : List ProductOption → Type 0
HaveValues = All (λ o. 0 < length o.values)

IsFilled-option_data : (os : List ProductOption) → HaveValues os → IsFilled (option_data os)
unfolding option_data
IsFilled-option_data [] h = tt
IsFilled-option_data (o ∷ os) (h, hs) =
    (omega (arith, length-map (placeholder o) o.values), IsFilled-option_data os hs)

HaveValues-of_filled : (os : List ProductOption) → IsFilled (option_data os) → HaveValues os
unfolding option_data
HaveValues-of_filled [] h = tt
HaveValues-of_filled (o ∷ os) (h, hs) =
    (omega (arith, length-map (placeholder o) o.values), HaveValues-of_filled os hs)

pick-zeros : {A : Type 0} (sl : List (List A)) → ¬ IsFilled sl → pick (zeros sl) sl ≡ none
unfolding pick
pick-zeros [] h = absurd (h tt)
pick-zeros ([] ∷ sl) h = refl
pick-zeros ((a ∷ s) ∷ sl) h = rw (pick-zeros sl (λ f. h (omega arith, f))) refl

module _ (to_lower : String → String) (input : ProductCreationInput) where
  -- If every option but the first has a value, the loop ends without a panic, and it returns one
  -- product for each row of the Cartesian product of the options' values, in lexicographic order.
  pub build_products-product :
      (o : ProductOption) (os : List ProductOption)
      → HaveValues os
      → build_products_from_options to_lower input (o ∷ os)
        ≡ finished (map (variant to_lower input) (product (option_data (o ∷ os))))
  unfolding build_products_from_options Finishes option_data
  build_products-product o os h =
      let s = map (placeholder o) o.values in
      let sl = option_data os in
      let filled = IsFilled-option_data os h in
      let all = remaining-zeros (s ∷ sl) in
      loop-remaining (variant to_lower input) (suc (volume (s ∷ sl))) 0 (zeros sl) s sl []
        (IsInside-zeros sl filled) filled
        (omega (arith, ap (length {A = List OptionPlaceholder}) all, length-product (s ∷ sl)))
      ∙ ap (λ rows. finished (map (variant to_lower input) rows)) all

  -- If the first option has a value and one of the others has none, the loop panics: the index into
  -- the empty list is out of range.
  pub build_products_panics :
      (o : ProductOption) (os : List ProductOption)
      → 0 < length o.values
      → ¬ HaveValues os
      → build_products_from_options to_lower input (o ∷ os) ≡ panicked
  unfolding build_products_from_options option_data pick
  build_products_panics o os h bad =
      let s = map (placeholder o) o.values in
      let sl = option_data os in
      loop-panic (variant to_lower input) (volume (s ∷ sl)) 0 (zeros sl) s sl []
        (ground (arith, length-map (placeholder o) o.values))
        (pick-zeros (s ∷ sl) (λ f. bad (HaveValues-of_filled os f.1)))

  -- When the loop ends without a panic, a product is returned exactly if it is the variant for some
  -- choice of one value of every option.
  pub mem-build_products :
      (o : ProductOption) (os : List ProductOption) (p : Product) {out : List Product}
      → build_products_from_options to_lower input (o ∷ os) ≡ finished out
      → HaveValues os
      → Mem p out
        ↔ ∥ (
            (row : List OptionPlaceholder) × IsChoice row (option_data (o ∷ os))
            × (variant to_lower input row ≡ p)) ∥₁
  mem-build_products o os p {out} e h =
      let rows = product (option_data (o ∷ os)) in
      let same : out ≡ map (variant to_lower input) rows = cc (e, build_products-product o os h) in
      (
        (λ m.
            ∥∥₁_map
              (exists_of_mem-map {f = variant to_lower input} {l = rows} (subst (Mem p) same m))
              (λ found.
                (found.0, (mem-product found.0 (option_data (o ∷ os))).0 found.1, found.2))),
        (λ t. ∥∥₁_elim t Mem-prop (λ found.
            subst (λ l. Mem p l) (sym same)
              (subst (λ q. Mem q (map (variant to_lower input) rows)) found.2
                (mem-map_of_mem (variant to_lower input)
                  ((mem-product found.0 (option_data (o ∷ os))).1 found.1))))),
      )
