-- ===== src/Postgres/Filter/Steps.antt =====
-- What each step of the query filter does to the limit, the offset and the conditions of a query.
use dairycart.Prelude.{
  ℕ, ◌-◌, ◌*◌, ◌%◌, ◌^◌, String, Bool, true, false, not, ◌&&◌, ◌||◌, Option, some, ltb,
  if◌then◌else◌, ◌≡◌, ◌∙◌, refl,
}
use dairycart.Models.Basics.{Time, is_zero_time, QueryFilter}
use dairycart.Postgres.Filter.{
  SelectBuilder, with_limit, with_offset, with_gt, with_lt, with_archived,
}
use dairycart.Postgres.Filter.Reading.{Reading, after, before, is_null}

and-true : (c : Bool) → c ≡ c && true
and-true true = refl
and-true false = refl

module _ {Q A : Type 0} (f : Q → A) where
  if-const : (c : Bool) {x y : Q} {a : A} → f x ≡ a → f y ≡ a → f (if c then x else y) ≡ a
  if-const true p q = p
  if-const false p q = q

  if-case :
      (c : Bool) {x y : Q} {a a' : A}
      → f x ≡ a
      → f y ≡ a'
      → f (if c then x else y) ≡ (if c then a else a')
  if-case true p q = p
  if-case false p q = q

module _ {Q : Type 0} (f : Q → Bool) where
  if-keeps :
      (unset : Bool) {x : Q} (q : Q) (c : Bool)
      → f x ≡ f q && c
      → f (if not unset then x else q) ≡ f q && (unset || c)
  if-keeps true q c p = and-true (f q)
  if-keeps false q c p = p

abbrev pub effective_limit : ℕ → ℕ
effective_limit limit = if ltb 0 limit then limit else 25

abbrev pub effective_offset : QueryFilter → Bool → ℕ
effective_offset qf include_offset =
    if ltb 1 qf.page && include_offset then ((qf.page - 1) * qf.limit) % 2 ^ 64 else 0

module _ {Q R : Type 0} (b : SelectBuilder Q) (column : String → R → Option Time)
    (reading : Reading b column) where
  some-limit :
      (c : Bool) (m n : ℕ)
      → (if c then Option.some m else Option.some n) ≡ some (if c then m else n)
  some-limit true m n = refl
  some-limit false m n = refl

  pub limit-limit : (n : ℕ) (q : Q) → reading.limit_of (with_limit b n q) ≡ some (effective_limit n)
  unfolding with_limit
  limit-limit n q =
      if-case reading.limit_of (ltb 0 n) (reading.limit_sets _ _) (reading.limit_sets _ _)
      ∙ some-limit (ltb 0 n) n 25

  pub limit-offset : (n : ℕ) (q : Q) → reading.offset_of (with_limit b n q) ≡ reading.offset_of q
  unfolding with_limit
  limit-offset n q =
      if-const reading.offset_of (ltb 0 n) (reading.limit_offset _ _) (reading.limit_offset _ _)

  pub limit-keeps : (n : ℕ) (q : Q) (r : R) → reading.keeps (with_limit b n q) r ≡ reading.keeps q r
  unfolding with_limit
  limit-keeps n q r =
      if-const (λ x. reading.keeps x r) (ltb 0 n) (reading.limit_keeps _ _ _)
        (reading.limit_keeps _ _ _)

  pub offset-limit :
      (qf : QueryFilter) (o : Bool) (q : Q)
      → reading.limit_of (with_offset b qf o q) ≡ reading.limit_of q
  unfolding with_offset
  offset-limit qf o q =
      if-const reading.limit_of (ltb 1 qf.page && o) (reading.offset_limit _ _) refl

  pub offset-offset :
      (qf : QueryFilter) (o : Bool) (q : Q)
      → reading.offset_of q ≡ 0
      → reading.offset_of (with_offset b qf o q) ≡ effective_offset qf o
  unfolding with_offset
  offset-offset qf o q e =
      if-case reading.offset_of (ltb 1 qf.page && o) (reading.offset_sets _ _) e

  pub offset-keeps :
      (qf : QueryFilter) (o : Bool) (q : Q) (r : R)
      → reading.keeps (with_offset b qf o q) r ≡ reading.keeps q r
  unfolding with_offset
  offset-keeps qf o q r =
      if-const (λ x. reading.keeps x r) (ltb 1 qf.page && o) (reading.offset_keeps _ _ _) refl

  pub gt-limit :
      (c : String) (t : Time) (q : Q) → reading.limit_of (with_gt b c t q) ≡ reading.limit_of q
  unfolding with_gt
  gt-limit c t q = if-const reading.limit_of (not (is_zero_time t)) (reading.gt_limit _ _ _) refl

  pub gt-offset :
      (c : String) (t : Time) (q : Q) → reading.offset_of (with_gt b c t q) ≡ reading.offset_of q
  unfolding with_gt
  gt-offset c t q = if-const reading.offset_of (not (is_zero_time t)) (reading.gt_offset _ _ _) refl

  pub gt-keeps :
      (c : String) (t : Time) (q : Q) (r : R)
      → reading.keeps (with_gt b c t q) r
        ≡ reading.keeps q r && (is_zero_time t || after (column c r) t)
  unfolding with_gt
  gt-keeps c t q r =
      if-keeps (λ x. reading.keeps x r) (is_zero_time t) _ _ (reading.gt_keeps _ _ _ _)

  pub lt-limit :
      (c : String) (t : Time) (q : Q) → reading.limit_of (with_lt b c t q) ≡ reading.limit_of q
  unfolding with_lt
  lt-limit c t q = if-const reading.limit_of (not (is_zero_time t)) (reading.lt_limit _ _ _) refl

  pub lt-offset :
      (c : String) (t : Time) (q : Q) → reading.offset_of (with_lt b c t q) ≡ reading.offset_of q
  unfolding with_lt
  lt-offset c t q = if-const reading.offset_of (not (is_zero_time t)) (reading.lt_offset _ _ _) refl

  pub lt-keeps :
      (c : String) (t : Time) (q : Q) (r : R)
      → reading.keeps (with_lt b c t q) r
        ≡ reading.keeps q r && (is_zero_time t || before (column c r) t)
  unfolding with_lt
  lt-keeps c t q r =
      if-keeps (λ x. reading.keeps x r) (is_zero_time t) _ _ (reading.lt_keeps _ _ _ _)

  pub archived-limit :
      (a : Bool) (q : Q) → reading.limit_of (with_archived b a q) ≡ reading.limit_of q
  unfolding with_archived
  archived-limit a q = if-const reading.limit_of (not a) (reading.null_limit _ _) refl

  pub archived-offset :
      (a : Bool) (q : Q) → reading.offset_of (with_archived b a q) ≡ reading.offset_of q
  unfolding with_archived
  archived-offset a q = if-const reading.offset_of (not a) (reading.null_offset _ _) refl

  pub archived-keeps :
      (a : Bool) (q : Q) (r : R)
      → reading.keeps (with_archived b a q) r
        ≡ reading.keeps q r && (a || is_null (column "archived_on" r))
  unfolding with_archived
  archived-keeps a q r = if-keeps (λ x. reading.keeps x r) a _ _ (reading.null_keeps _ _ _)
