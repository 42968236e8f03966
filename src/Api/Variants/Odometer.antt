-- ===== src/Api/Variants/Odometer.antt =====
-- The index vector of `buildProductsFromOptions` and the loop over it, for any type of entries.
use dairycart.Prelude.{
  ℕ, zero, suc, Bool, true, false, ◌||◌, List, [], ◌∷◌, ◌++◌, Option, none, some, ltb, length,
  get_elem?, if◌then◌else◌,
}
use mathlib.Core.Option

-- How a run of the loop ends; an index out of range is a panic.
pub data Run (A : Type 0) : Type 0 where
  out_of_fuel : Run A
  panicked : Run A
  finished : A → Run A

module _ {A : Type 0} where
  -- `make([]int, len(optionData))`
  abbrev pub zeros : List (List A) → List ℕ
  zeros [] = []
  zeros (s ∷ sl) = 0 ∷ zeros sl

  -- What `next` does at index `j`, from what it did at the indices above `j`: the flag says that the
  -- loop has not returned yet, and `first` that `j == 0`.
  abbrev pub bump_at : Bool → ℕ → List A → List ℕ × Bool → List ℕ × Bool
  bump_at first i s (ix, false) = (i ∷ ix, false)
  bump_at first i s (ix, true) =
      if first || ltb (suc i) (length s) then (suc i ∷ ix, false) else (0 ∷ ix, true)

  -- The loop of `next`, from the last index down to the first.
  unfoldable pub bump : Bool → List ℕ → List (List A) → List ℕ × Bool
  bump first [] sl = ([], true)
  bump first (i ∷ ix) [] = (i ∷ ix, true)
  bump first (i ∷ ix) (s ∷ sl) = bump_at first i s (bump false ix sl)

  unfoldable pub next : List ℕ → List (List A) → List ℕ
  unfolding bump
  next ix sl = (bump true ix sl).0

  -- `optionData[j][k]` for every `j, k` of `ix`.
  unfoldable pub pick : List ℕ → List (List A) → Option (List A)
  unfolding Option.bind
  pick [] sl = some []
  pick (i ∷ ix) [] = none
  pick (i ∷ ix) (s ∷ sl) = Option.bind (get_elem? s i) (λ a. Option.map (◌∷◌ a) (pick ix sl))

  -- ix[0] < len(optionData[0])
  unfoldable pub in_range : List ℕ → List (List A) → Option Bool
  in_range (i ∷ ix) (s ∷ sl) = some (ltb i (length s))
  in_range _ _ = none

  module _ {B : Type 0} (build : List A → B) where
    unfoldable pub loop : ℕ → List ℕ → List (List A) → List B → Run (List B)
    loop zero ix sl out = out_of_fuel
    loop (suc fuel) ix sl out = elim (in_range ix sl) [
      | none ↦ panicked
      | some false ↦ finished out
      | some true ↦ elim (pick ix sl) [
        | none ↦ panicked
        | some row ↦ loop fuel (next ix sl) sl (out ++ build row ∷ [])
      ]
    ]
