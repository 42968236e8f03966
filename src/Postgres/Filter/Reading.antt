-- ===== src/Postgres/Filter/Reading.antt =====
-- How PostgreSQL reads the query that squirrel's `SelectBuilder` builds.
use dairycart.Prelude.{ℕ, String, Bool, true, false, ◌&&◌, Option, none, some, ltb, ◌≡◌}
use dairycart.Models.Basics.{Time}
use dairycart.Postgres.Filter.{SelectBuilder}

-- t₁ > t₂ and t₁ < t₂ in SQL, where NULL is in no order.
abbrev pub after : Option Time → Time → Bool
after none t = false
after (some u) t = ltb t u

abbrev pub before : Option Time → Time → Bool
before none t = false
before (some u) t = ltb u t

abbrev pub is_null : Option Time → Bool
is_null none = true
is_null (some u) = false

-- How PostgreSQL reads a query: `LIMIT`, `OFFSET`, and the rows that the conditions keep. A builder
-- method sets its own part and no other, and a new condition is joined by AND.
pub record Reading {Q R : Type 0} (b : SelectBuilder Q) (column : String → R → Option Time)
    : Type 0 where
  pub limit_of : Q → Option ℕ
  pub offset_of : Q → ℕ
  pub keeps : Q → R → Bool
  pub limit_sets : (n : ℕ) (q : Q) → limit_of (b.limit n q) ≡ some n
  pub limit_offset : (n : ℕ) (q : Q) → offset_of (b.limit n q) ≡ offset_of q
  pub limit_keeps : (n : ℕ) (q : Q) (r : R) → keeps (b.limit n q) r ≡ keeps q r
  pub offset_sets : (n : ℕ) (q : Q) → offset_of (b.offset n q) ≡ n
  pub offset_limit : (n : ℕ) (q : Q) → limit_of (b.offset n q) ≡ limit_of q
  pub offset_keeps : (n : ℕ) (q : Q) (r : R) → keeps (b.offset n q) r ≡ keeps q r
  pub gt_limit : (c : String) (t : Time) (q : Q) → limit_of (b.where_gt c t q) ≡ limit_of q
  pub gt_offset : (c : String) (t : Time) (q : Q) → offset_of (b.where_gt c t q) ≡ offset_of q
  pub gt_keeps :
      (c : String) (t : Time) (q : Q) (r : R)
      → keeps (b.where_gt c t q) r ≡ keeps q r && after (column c r) t
  pub lt_limit : (c : String) (t : Time) (q : Q) → limit_of (b.where_lt c t q) ≡ limit_of q
  pub lt_offset : (c : String) (t : Time) (q : Q) → offset_of (b.where_lt c t q) ≡ offset_of q
  pub lt_keeps :
      (c : String) (t : Time) (q : Q) (r : R)
      → keeps (b.where_lt c t q) r ≡ keeps q r && before (column c r) t
  pub null_limit : (c : String) (q : Q) → limit_of (b.where_null c q) ≡ limit_of q
  pub null_offset : (c : String) (q : Q) → offset_of (b.where_null c q) ≡ offset_of q
  pub null_keeps :
      (c : String) (q : Q) (r : R) → keeps (b.where_null c q) r ≡ keeps q r && is_null (column c r)
