-- ===== src/Postgres/Rows.antt =====
-- `SELECT ... LIMIT 1` and `UPDATE ... WHERE` on the rows of a table.
use dairycart.Prelude.{
  Bool, true, false, ◌≡◌, refl, ap, Bool-cases, inl, inr, List, [], ◌∷◌, ◌++◌, Option, none, some,
  All, if◌then◌else◌, ◌&&◌, subst,
}

pub and-false : (b : Bool) → b && false ≡ false
and-false true = refl
and-false false = refl

module _ {A : Type 0} where
  abbrev pub or_else : Bool → A → Option A → Option A
  or_else true a o = some a
  or_else false a o = o

  -- The first row that satisfies the condition.
  abbrev pub find : (A → Bool) → List A → Option A
  find p [] = none
  find p (x ∷ xs) = or_else (p x) x (find p xs)

  abbrev pub any : (A → Bool) → List A → Bool
  any p [] = false
  any p (x ∷ xs) = if p x then true else any p xs

  -- Every row that satisfies the condition is changed.
  abbrev pub map_where : (A → Bool) → (A → A) → List A → List A
  map_where q f [] = []
  map_where q f (x ∷ xs) = (if q x then f x else x) ∷ map_where q f xs

  taken : (b : Bool) (x : A) (o : Option A) {a : A} → b ≡ true → or_else b x o ≡ some a → x ≡ a
  taken true x o u e = cc
  taken false x o u e = cc

  passed_over :
      (b : Bool) (x : A) (o : Option A) {a : A} → b ≡ false → or_else b x o ≡ some a → o ≡ some a
  passed_over true x o u e = cc
  passed_over false x o u e = e

  -- Nothing is found after a change that no longer satisfies the condition, of all that did.
  pub find-map_where-none :
      (p q : A → Bool) (f : A → A)
      → ((x : A) → q x ≡ true → p (f x) ≡ false)
      → ((x : A) → q x ≡ false → p x ≡ false)
      → (xs : List A) → find p (map_where q f xs) ≡ none
  find-map_where-none p q f h k [] = refl
  find-map_where-none p q f h k (x ∷ xs) = elim (Bool-cases (q x)) [
    | inl e ↦ rw (e, h x e) (find-map_where-none p q f h k xs)
    | inr e ↦ rw (e, k x e) (find-map_where-none p q f h k xs)
  ]

  -- A change of rows that are not looked for.
  pub find-map_where_other :
      (p q : A → Bool) (f : A → A)
      → ((x : A) → q x ≡ true → p x ≡ false)
      → ((x : A) → q x ≡ true → p (f x) ≡ false)
      → (xs : List A) → find p (map_where q f xs) ≡ find p xs
  find-map_where_other p q f h k [] = refl
  find-map_where_other p q f h k (x ∷ xs) = elim (Bool-cases (q x)) [
    | inl e ↦ rw (e, h x e, k x e) (find-map_where_other p q f h k xs)
    | inr e ↦ rw e (ap (or_else (p x) x) (find-map_where_other p q f h k xs))
  ]

  -- A change of the rows that are looked for and maybe of others, which does not change the condition.
  pub find-map_where_same :
      (p q : A → Bool) (f : A → A)
      → ((x : A) → q x ≡ true → p (f x) ≡ p x)
      → ((x : A) → q x ≡ false → p x ≡ false)
      → (xs : List A) {a : A} → find p xs ≡ some a
      → find p (map_where q f xs) ≡ some (f a)
  find-map_where_same p q f h k [] e = cc
  find-map_where_same p q f h k (x ∷ xs) {a} e = elim (Bool-cases (q x)) [
    | inl t ↦ elim (Bool-cases (p x)) [
      | inl u ↦ rw (t, h x t, u) (ap (λ y. some (f y)) (taken (p x) x _ u e))
      | inr u ↦ rw (t, h x t, u) (find-map_where_same p q f h k xs (passed_over (p x) x _ u e))
    ]
    | inr t ↦ rw (t, k x t) (find-map_where_same p q f h k xs (passed_over (p x) x _ (k x t) e))
  ]

  -- A row that is added is found if none of the rows before it is.
  pub find-append_last :
      (p : A → Bool) (xs : List A) (x : A)
      → All (λ y. p y ≡ false) xs
      → p x ≡ true
      → find p (xs ++ x ∷ []) ≡ some x
  find-append_last p [] x h e = rw e refl
  find-append_last p (y ∷ ys) x (h, hs) e = rw h (find-append_last p ys x hs e)

  -- No row satisfies the condition after a change that no longer satisfies it, of all that did.
  pub any-map_where-none :
      (p q : A → Bool) (f : A → A)
      → ((x : A) → q x ≡ true → p (f x) ≡ false)
      → ((x : A) → q x ≡ false → p x ≡ false)
      → (xs : List A) → any p (map_where q f xs) ≡ false
  any-map_where-none p q f h k [] = refl
  any-map_where-none p q f h k (x ∷ xs) = elim (Bool-cases (q x)) [
    | inl e ↦ rw (e, h x e) (any-map_where-none p q f h k xs)
    | inr e ↦ rw (e, k x e) (any-map_where-none p q f h k xs)
  ]

  -- A change that a condition does not see.
  pub any-map_where :
      (p q : A → Bool) (f : A → A)
      → ((x : A) → p (f x) ≡ p x)
      → (xs : List A) → any p (map_where q f xs) ≡ any p xs
  any-map_where p q f h [] = refl
  any-map_where p q f h (x ∷ xs) = elim (Bool-cases (q x)) [
    | inl e ↦ rw (e, h x) (ap (λ b. if p x then true else b) (any-map_where p q f h xs))
    | inr e ↦ rw e (ap (λ b. if p x then true else b) (any-map_where p q f h xs))
  ]

  -- A row that is found satisfies the condition.
  pub find-holds : (p : A → Bool) (xs : List A) {a : A} → find p xs ≡ some a → p a ≡ true
  find-holds p [] e = cc
  find-holds p (x ∷ xs) e = elim (Bool-cases (p x)) [
    | inl u ↦ subst (λ y. p y ≡ true) (taken (p x) x _ u e) u
    | inr u ↦ find-holds p xs (passed_over (p x) x _ u e)
  ]
