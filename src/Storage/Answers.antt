-- ===== src/Storage/Answers.antt =====
-- What a call of a store returns: Go's pair of a value and an `error`.
use dairycart.Prelude.{ℕ, String, Bool, true, false}
use dairycart.Models.Basics.{Time}

-- `sql.ErrNoRows` is the one error that the handlers tell apart from the others. Any other error is
-- known by its text.
pub data Err : Type 0 where
  nil : Err
  no_rows : Err
  failed : String → Err

-- err == sql.ErrNoRows
abbrev pub is_no_rows : Err → Bool
is_no_rows no_rows = true
is_no_rows _ = false

-- err != nil
abbrev pub is_err : Err → Bool
is_err nil = false
is_err _ = true

-- err != nil && err != sql.ErrNoRows
abbrev pub is_failure : Err → Bool
is_failure (failed _) = true
is_failure _ = false

-- err == nil
abbrev pub is_ok : Err → Bool
is_ok nil = true
is_ok _ = false

-- err.Error()
abbrev pub text : Err → String
text nil = ""
text no_rows = "sql: no rows in result set"
text (failed s) = s

pub record Answer (A : Type 0) : Type 0 where
  pub value : A
  pub err : Err

-- A statement that only reads, and one that may write. `D` is the state of the database.
abbrev pub Query : Type 0 → Type 0 → Type 0
Query D A = D → Answer A

abbrev pub Command : Type 0 → Type 0 → Type 0
Command D A = D → Answer A × D

-- A new row's id and its `created_on`.
pub record Created : Type 0 where
  pub id : ℕ
  pub created_on : Time
