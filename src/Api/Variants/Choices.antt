-- ===== src/Api/Variants/Choices.antt =====
-- The rows of the Cartesian product are the choices of one entry out of every list.
use mathlib.Core.Logic.Or
use mathlib.Core.HLevel.{×_prop, ⊥_prop}
use mathlib.Core.List.{
  Mem, Mem-prop, mem-cons, mem-cons_self, mem-cons_of_mem, mem-append, mem-append_right,
  mem-append_left, mem-map_of_mem, exists_of_mem-map, not-mem-nil,
}
use mathlib.Core.Logic.{∥∥₁_elim}
use dairycart.Prelude.{◌↔◌, subst, List, [], ◌∷◌, map}
use dairycart.Api.Variants.Product.{prepend_each, product}

module _ {A : Type 0} where
  -- `row` takes its j-th entry from the j-th list.
  abbrev pub IsChoice : List A → List (List A) → Type 0
  IsChoice [] [] = Unit
  IsChoice (a ∷ row) (s ∷ sl) = Mem a s × IsChoice row sl
  IsChoice _ _ = ⊥

  pub IsChoice-prop : (row : List A) (sl : List (List A)) → IsProp (IsChoice row sl)
  IsChoice-prop [] [] = hlevel
  IsChoice-prop [] (s ∷ sl) = hlevel
  IsChoice-prop (a ∷ row) [] = hlevel
  IsChoice-prop (a ∷ row) (s ∷ sl) = ×_prop Mem-prop (IsChoice-prop row sl)

  mem-prepend_each :
      (a : A) (row : List A) (s : List A) (rows : List (List A))
      → Mem a s
      → Mem row rows
      → Mem (a ∷ row) (prepend_each s rows)
  mem-prepend_each a row [] rows m n = absurd (not-mem-nil m)
  mem-prepend_each a row (x ∷ s) rows m n =
      Or.elim Mem-prop (mem-cons.0 m)
        (λ e.
          mem-append_left _
            (subst (λ y. Mem (a ∷ row) (map (◌∷◌ y) rows)) e (mem-map_of_mem (◌∷◌ a) n)))
        (λ m'. mem-append_right _ (mem-prepend_each a row s rows m' n))

  widen :
      (x : A) (row : List A) (s : List A) (sl : List (List A))
      → IsChoice row (s ∷ sl)
      → IsChoice row ((x ∷ s) ∷ sl)
  widen x [] s sl h = h
  widen x (a ∷ row) s sl (m, h) = (mem-cons_of_mem x m, h)

  IsChoice-of_mem-prepend_each :
      (row : List A) (s : List A) (sl rows : List (List A))
      → ((r : List A) → Mem r rows → IsChoice r sl)
      → Mem row (prepend_each s rows)
      → IsChoice row (s ∷ sl)
  IsChoice-of_mem-prepend_each row [] sl rows h m = absurd (not-mem-nil m)
  IsChoice-of_mem-prepend_each row (x ∷ s) sl rows h m =
      Or.elim (IsChoice-prop row ((x ∷ s) ∷ sl)) ((mem-append {s = map (◌∷◌ x) rows}).0 m)
        (λ here.
          ∥∥₁_elim (exists_of_mem-map {f = ◌∷◌ x} here) (IsChoice-prop row ((x ∷ s) ∷ sl)) (λ found.
            subst (λ r. IsChoice r ((x ∷ s) ∷ sl)) found.2 (mem-cons_self, h found.0 found.1)))
        (λ later. widen x row s sl (IsChoice-of_mem-prepend_each row s sl rows h later))

  IsChoice-of_mem-product :
      (sl : List (List A)) (row : List A) → Mem row (product sl) → IsChoice row sl
  unfolding product
  IsChoice-of_mem-product [] [] m = tt
  IsChoice-of_mem-product [] (a ∷ row) m =
      Or.elim ⊥_prop (mem-cons.0 m) (λ e. cc e) (λ n. not-mem-nil n)
  IsChoice-of_mem-product (s ∷ sl) row m =
      IsChoice-of_mem-prepend_each row s sl (product sl) (IsChoice-of_mem-product sl) m

  mem-product_of_choice :
      (sl : List (List A)) (row : List A) → IsChoice row sl → Mem row (product sl)
  unfolding product
  mem-product_of_choice [] [] h = mem-cons_self
  mem-product_of_choice [] (a ∷ row) h = absurd h
  mem-product_of_choice (s ∷ sl) [] h = absurd h
  mem-product_of_choice (s ∷ sl) (a ∷ row) (m, h) =
      mem-prepend_each a row s (product sl) m (mem-product_of_choice sl row h)

  -- The product lists exactly the choices.
  pub mem-product : (row : List A) (sl : List (List A)) → Mem row (product sl) ↔ IsChoice row sl
  mem-product row sl = (IsChoice-of_mem-product sl row, mem-product_of_choice sl row)
