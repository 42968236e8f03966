-- ===== src/Postgres/Laws.antt =====
-- What the statements on a table with a serial id and a date of archiving do to the rows that are found
-- by their id.
use dairycart.Prelude.{
  ℕ, ◌+◌, ◌≤◌, ◌<◌, ◌≡◌, ◌≢◌, refl, ◌∙◌, Bool, true, false, ◌&&◌, ◌==◌, Option, none, some, List,
  [], ◌∷◌, ◌++◌, arith, if◌then◌else◌, Bool-cases, inl, inr,
}
use dairycart.Models.Basics.{Dairytime}
use dairycart.Postgres.Rows.{and-false, find, or_else, map_where}
use dairycart.Postgres.Statements.{is_unarchived}

module _ {R : Type 0} (id : R → ℕ) where
  -- The ids of the rows ascend from `low` and stay below `next`.
  abbrev pub IsAscending : ℕ → List R → ℕ → Type 0
  IsAscending low [] next = low ≤ next
  IsAscending low (x ∷ xs) next = (low ≤ id x) × IsAscending (id x + 1) xs next

  ascending-le : (low : ℕ) (xs : List R) (next : ℕ) → IsAscending low xs next → low ≤ next
  ascending-le low [] next h = h
  ascending-le low (x ∷ xs) next (h, hs) = let e = ascending-le (id x + 1) xs next hs in omega arith

  pub append-IsAscending :
      (low : ℕ) (xs : List R) (next : ℕ) (x : R)
      → IsAscending low xs next
      → id x ≡ next
      → IsAscending low (xs ++ x ∷ []) (next + 1)
  append-IsAscending low [] next x h e = (omega arith, omega arith)
  append-IsAscending low (y ∷ ys) next x (h, hs) e =
      (h, append-IsAscending (id y + 1) ys next x hs e)

  pub map_where-IsAscending :
      (q : R → Bool) (f : R → R)
      → ((x : R) → id (f x) ≡ id x)
      → (low : ℕ) (xs : List R) (next : ℕ) → IsAscending low xs next
      → IsAscending low (map_where q f xs) next
  map_where-IsAscending q f same low [] next h = h
  map_where-IsAscending q f same low (x ∷ xs) next (h, hs) = elim (Bool-cases (q x)) [
    | inl e ↦ rw (e, same x) (h, map_where-IsAscending q f same (id x + 1) xs next hs)
    | inr e ↦ rw e (h, map_where-IsAscending q f same (id x + 1) xs next hs)
  ]

  module _ (archived_on : R → Dairytime) where
    -- archived_on IS NULL AND id = $1
    abbrev pub live : ℕ → R → Bool
    live n x = is_unarchived (archived_on x) && id x == n

    eq_false : (a b : ℕ) → a ≢ b → (a == b) ≡ false
    eq_false a b h = ground arith

    eq_true : (a b : ℕ) → (a == b) ≡ true → a ≡ b
    eq_true a b h = ground arith

    eq_sym : (a b : ℕ) → (a == b) ≡ (b == a)
    eq_sym a b = ground arith

    earlier_id : (a n next : ℕ) → a < next → (n == next) ≡ true → (a == n) ≡ false
    earlier_id a n next h t = ground arith

    not_live : (x : R) (n : ℕ) → (id x == n) ≡ false → live n x ≡ false
    not_live x n h = rw h (and-false (is_unarchived (archived_on x)))

    abbrev nothing : Option R
    nothing = none

    -- What is found after a row was added under the next id.
    pub find-append :
        (n low : ℕ) (xs : List R) (next : ℕ) (x : R)
        → IsAscending low xs next
        → id x ≡ next
        → archived_on x ≡ none
        → find (live n) (xs ++ x ∷ []) ≡ (if n == next then some x else find (live n) xs)
    find-append n low [] next x h e u = rw (e, u, eq_sym next n) (by_test (n == next))
      where
        by_test : (b : Bool) → or_else b x none ≡ (if b then some x else none)
        by_test true = refl
        by_test false = refl
    find-append n low (y ∷ ys) next x (h, hs) e u =
        rw (find-append n (id y + 1) ys next x hs e u) (by_test (n == next) refl)
      where
        before : id y < next
        before = let e = ascending-le (id y + 1) ys next hs in omega arith

        by_test :
            (b : Bool)
            → (n == next) ≡ b
            → or_else (live n y) y (if b then some x else find (live n) ys)
              ≡ (if b then some x else or_else (live n y) y (find (live n) ys))
        by_test true t = rw (not_live y n (earlier_id (id y) n next before t)) refl
        by_test false t = refl

    -- What is found after the row with an id was archived.
    pub find-archive :
        (n m : ℕ) (f : R → R)
        → ((x : R) → id (f x) ≡ id x)
        → ((x : R) → is_unarchived (archived_on (f x)) ≡ false)
        → (xs : List R)
        → find (live n) (map_where (λ x. id x == m) f xs)
          ≡ (if n == m then none else find (live n) xs)
    find-archive n m f same gone [] = by_test (n == m)
      where
        by_test : (b : Bool) → nothing ≡ (if b then none else none)
        by_test true = refl
        by_test false = refl
    find-archive n m f same gone (x ∷ xs) = elim (Bool-cases (id x == m)) [
      | inl e ↦
          rw (e, gone x, find-archive n m f same gone xs) (hit (n == m) refl (eq_true (id x) m e))
      | inr e ↦ rw (e, find-archive n m f same gone xs) (miss (n == m) refl e)
    ]
      where
        hit :
            (b : Bool)
            → (n == m) ≡ b
            → id x ≡ m
            → (if b then none else find (live n) xs)
              ≡ (if b then none else or_else (live n x) x (find (live n) xs))
        hit true t e = refl
        hit false t e = rw (not_live x n (rw e (eq_sym m n) ∙ t)) refl

        miss :
            (b : Bool)
            → (n == m) ≡ b
            → (id x == m) ≡ false
            → or_else (live n x) x (if b then none else find (live n) xs)
              ≡ (if b then none else or_else (live n x) x (find (live n) xs))
        miss true t e = rw (not_live x n (rw (eq_true n m t) e)) refl
        miss false t e = refl

    abbrev pub changed : Bool → (R → R) → Option R → Option R
    changed true f (some x) = some (f x)
    changed true f none = none
    changed false f o = o

    -- What is found after the row with an id was changed.
    pub find-change :
        (n m : ℕ) (f : R → R)
        → ((x : R) → id (f x) ≡ id x)
        → ((x : R) → archived_on (f x) ≡ archived_on x)
        → (xs : List R)
        → find (live n) (map_where (λ x. id x == m) f xs) ≡ changed (n == m) f (find (live n) xs)
    find-change n m f same kept [] = by_test (n == m)
      where
        by_test : (b : Bool) → none ≡ changed b f none
        by_test true = refl
        by_test false = refl
    find-change n m f same kept (x ∷ xs) = elim (Bool-cases (id x == m)) [
      | inl e ↦
          rw (e, same x, kept x, find-change n m f same kept xs)
            (hit (n == m) refl (eq_true (id x) m e))
      | inr e ↦ rw (e, find-change n m f same kept xs) (miss (n == m) refl e)
    ]
      where
        taken :
            (b : Bool) (o : Option R)
            → or_else b (f x) (changed true f o) ≡ changed true f (or_else b x o)
        taken true o = refl
        taken false o = refl

        hit :
            (b : Bool)
            → (n == m) ≡ b
            → id x ≡ m
            → or_else (live n x) (f x) (changed b f (find (live n) xs))
              ≡ changed b f (or_else (live n x) x (find (live n) xs))
        hit true t e = taken (live n x) (find (live n) xs)
        hit false t e = rw (not_live x n (rw e (eq_sym m n) ∙ t)) refl

        miss :
            (b : Bool)
            → (n == m) ≡ b
            → (id x == m) ≡ false
            → or_else (live n x) x (changed b f (find (live n) xs))
              ≡ changed b f (or_else (live n x) x (find (live n) xs))
        miss true t e = rw (not_live x n (rw (eq_true n m t) e)) refl
        miss false t e = refl
