-- ===== src/Api/Variants/Product.antt =====
-- The Cartesian product, as a specification of the loop: its rows in lexicographic order.
use dairycart.Prelude.{
  ℕ, ◌*◌, ◌≡◌, ap, ◌∙◌, List, [], ◌∷◌, ◌++◌, map, arith, length, length-append, length-map,
}

module _ {A : Type 0} where
  abbrev pub prepend_each : List A → List (List A) → List (List A)
  prepend_each [] rows = []
  prepend_each (a ∷ as') rows = map (◌∷◌ a) rows ++ prepend_each as' rows

  unfoldable pub product : List (List A) → List (List A)
  product [] = [] ∷ []
  product (s ∷ sl) = prepend_each s (product sl)

  unfoldable pub volume : List (List A) → ℕ
  volume [] = 1
  volume (s ∷ sl) = length s * volume sl

  length-prepend_each :
      (s : List A) (rows : List (List A)) → length (prepend_each s rows) ≡ length s * length rows
  length-prepend_each [] rows = omega arith
  length-prepend_each (a ∷ as') rows = grind (
    arith,
    length-append (map (◌∷◌ a) rows) (prepend_each as' rows),
    length-map (◌∷◌ a) rows,
    length-prepend_each as' rows,
  )

  pub length-product : (sl : List (List A)) → length (product sl) ≡ volume sl
  unfolding product volume
  length-product [] = omega arith
  length-product (s ∷ sl) =
      length-prepend_each s (product sl) ∙ ap (λ (n : ℕ). length s * n) (length-product sl)
