-- ===== src/Api/Variants/Remaining.antt =====
-- The rows that are still to come at an index vector, and one step of the odometer on them.
use dairycart.Prelude.{
  ℕ, zero, suc, ◌<◌, ◌≤◌, ◌≡◌, refl, sym, ap, ◌∙◌, inl, inr, Bool, true, false, List, [], ◌∷◌, ◌++◌,
  map, some, arith, length, get_elem?, drop, All, ltb, Bool-cases,
}
use dairycart.Api.Variants.Odometer.{zeros, bump_at, bump, pick}
use dairycart.Api.Variants.Product.{prepend_each, product}

module _ {A : Type 0} where
  abbrev remaining_in : List A → List (List A) → List (List A) → List (List A)
  remaining_in [] now rows = []
  remaining_in (a ∷ as') now rows = map (◌∷◌ a) now ++ prepend_each as' rows

  -- The rows from the index vector on, in lexicographic order.
  pub remaining : List ℕ → List (List A) → List (List A)
  remaining [] sl = [] ∷ []
  remaining (i ∷ ix) [] = []
  remaining (i ∷ ix) (s ∷ sl) = remaining_in (drop i s) (remaining ix sl) (product sl)

  -- Every index points at a value.
  abbrev pub IsInside : List ℕ → List (List A) → Type 0
  IsInside [] [] = Unit
  IsInside (i ∷ ix) (s ∷ sl) = (i < length s) × IsInside ix sl
  IsInside _ _ = ⊥

  abbrev pub IsFilled : List (List A) → Type 0
  IsFilled = All (λ s. 0 < length s)

  drop-at :
      (s : List A) (i : ℕ)
      → i < length s
      → (a : A) × (get_elem? s i ≡ some a) × (drop i s ≡ a ∷ drop (suc i) s)
  drop-at [] i h = absurd (omega arith)
  drop-at (x ∷ s) zero h = (x, refl, refl)
  drop-at (x ∷ s) (suc i) h = drop-at s i (omega arith)

  drop-all : (s : List A) (i : ℕ) → length s ≤ i → drop i s ≡ []
  drop-all [] zero h = refl
  drop-all [] (suc i) h = refl
  drop-all (x ∷ s) zero h = absurd (omega arith)
  drop-all (x ∷ s) (suc i) h = drop-all s i (omega arith)

  pub IsInside-zeros : (sl : List (List A)) → IsFilled sl → IsInside (zeros sl) sl
  IsInside-zeros [] h = tt
  IsInside-zeros (s ∷ sl) h = (h.0, IsInside-zeros sl h.1)

  remaining_in-start :
      (s : List A) (rows : List (List A)) → remaining_in s rows rows ≡ prepend_each s rows
  remaining_in-start [] rows = refl
  remaining_in-start (a ∷ s) rows = refl

  pub remaining-zeros : (sl : List (List A)) → remaining (zeros sl) sl ≡ product sl
  unfolding remaining product
  remaining-zeros [] = refl
  remaining-zeros (s ∷ sl) = rw (remaining-zeros sl) (remaining_in-start s (product sl))

  -- A step below the first index: it moves to the next row, or it was the last row and the vector is
  -- back at its start.
  abbrev Steps : List ℕ → List (List A) → List A → List ℕ × Bool → Type 0
  Steps ix sl row (ix', false) = (remaining ix sl ≡ row ∷ remaining ix' sl) × IsInside ix' sl
  Steps ix sl row (ix', true) = (remaining ix sl ≡ row ∷ []) × (ix' ≡ zeros sl)

  remaining-cons :
      (i : ℕ) (ix : List ℕ) (s : List A) (sl : List (List A)) {a : A} {s' : List A}
      → drop i s ≡ a ∷ s'
      → remaining (i ∷ ix) (s ∷ sl) ≡ map (◌∷◌ a) (remaining ix sl) ++ prepend_each s' (product sl)
  unfolding remaining
  remaining-cons i ix s sl e = rw e refl

  remaining-turn :
      (i : ℕ) (s : List A) (sl : List (List A))
      → remaining (i ∷ zeros sl) (s ∷ sl) ≡ prepend_each (drop i s) (product sl)
  unfolding remaining
  remaining-turn i s sl = rw (remaining-zeros sl) (remaining_in-start (drop i s) (product sl))

  step_at :
      (i : ℕ) (ix : List ℕ) (s : List A) (sl : List (List A)) (a : A) (row : List A)
      (r : List ℕ × Bool)
      → i < length s
      → IsFilled sl
      → drop i s ≡ a ∷ drop (suc i) s
      → Steps ix sl row r
      → Steps (i ∷ ix) (s ∷ sl) (a ∷ row) (bump_at false i s r)
  step_at i ix s sl a row (ix', false) h f e (now, inside) = (
    remaining-cons i ix s sl e ∙ rw now (sym (ap (◌∷◌ (a ∷ row)) (remaining-cons i ix' s sl e))),
    (h, inside),
  )
  step_at i ix s sl a row (ix', true) h f e (now, back) =
      elim (Bool-cases (ltb (suc i) (length s))) [
        | inl more ↦ rw more (
          remaining-cons i ix s sl e
              ∙ rw (now, back) (ap (◌∷◌ (a ∷ row)) (sym (remaining-turn (suc i) s sl))),
          (ground arith, rw back (IsInside-zeros sl f)),
        )
        | inr last ↦ rw last (
          remaining-cons i ix s sl e ∙ rw (now, drop-all s (suc i) (ground arith)) refl,
          ap (◌∷◌ 0) back,
        )
      ]

  pick-cons :
      (i : ℕ) (ix : List ℕ) (s : List A) (sl : List (List A)) {a : A} {row : List A}
      → get_elem? s i ≡ some a
      → pick ix sl ≡ some row
      → pick (i ∷ ix) (s ∷ sl) ≡ some (a ∷ row)
  unfolding pick
  pick-cons i ix s sl e e' = rw (e, e') refl

  step :
      (ix : List ℕ) (sl : List (List A))
      → IsInside ix sl
      → IsFilled sl
      → (row : List A) × (pick ix sl ≡ some row) × Steps ix sl row (bump false ix sl)
  unfolding bump pick remaining
  step [] [] h f = ([], refl, (refl, refl))
  step [] (s ∷ sl) h f = absurd h
  step (i ∷ ix) [] h f = absurd h
  step (i ∷ ix) (s ∷ sl) (h, hs) (f, fs) =
      let (a, at, e) = drop-at s i h in
      let (row, picked, st) = step ix sl hs fs in
      (a ∷ row, pick-cons i ix s sl at picked, step_at i ix s sl a row (bump false ix sl) h fs e st)

  -- The first index only goes up, and the vector is past the last row when it leaves its list.
  abbrev pub Advances : List ℕ → List A → List (List A) → List A → List ℕ × Bool → Type 0
  Advances ix s sl row (i' ∷ ix', _) =
      (remaining ix (s ∷ sl) ≡ row ∷ remaining (i' ∷ ix') (s ∷ sl)) × IsInside ix' sl
  Advances ix s sl row ([], _) = ⊥

  advance_at :
      (i : ℕ) (ix : List ℕ) (s : List A) (sl : List (List A)) (a : A) (row : List A)
      (r : List ℕ × Bool)
      → IsFilled sl
      → drop i s ≡ a ∷ drop (suc i) s
      → Steps ix sl row r
      → Advances (i ∷ ix) s sl (a ∷ row) (bump_at true i s r)
  advance_at i ix s sl a row (ix', false) f e (now, inside) = (
    remaining-cons i ix s sl e ∙ rw now (sym (ap (◌∷◌ (a ∷ row)) (remaining-cons i ix' s sl e))),
    inside,
  )
  advance_at i ix s sl a row (ix', true) f e (now, back) = (
    remaining-cons i ix s sl e
        ∙ rw (now, back) (ap (◌∷◌ (a ∷ row)) (sym (remaining-turn (suc i) s sl))),
    rw back (IsInside-zeros sl f),
  )

  -- At an index vector inside its lists there is a row, and `next` goes on to the rows after it.
  pub advance :
      (i : ℕ) (ix : List ℕ) (s : List A) (sl : List (List A))
      → i < length s
      → IsInside ix sl
      → IsFilled sl
      → (row : List A) × (pick (i ∷ ix) (s ∷ sl) ≡ some row)
        × Advances (i ∷ ix) s sl row (bump true (i ∷ ix) (s ∷ sl))
  unfolding bump
  advance i ix s sl h hs fs =
      let (a, at, e) = drop-at s i h in
      let (row, picked, st) = step ix sl hs fs in
      (
        a ∷ row,
        pick-cons i ix s sl at picked,
        advance_at i ix s sl a row (bump false ix sl) fs e st,
      )

  -- Past its list the first index has no rows.
  pub remaining-past :
      (i : ℕ) (ix : List ℕ) (s : List A) (sl : List (List A))
      → length s ≤ i
      → remaining (i ∷ ix) (s ∷ sl) ≡ []
  unfolding remaining
  remaining-past i ix s sl h = rw (drop-all s i h) refl
