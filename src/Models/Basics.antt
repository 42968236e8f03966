-- ===== src/Models/Basics.antt =====
-- What the structs of models/v1 are made of, and the query filter of models/v1/helper_types.go.
use dairycart.Prelude.{ℕ, Bool, Option, ◌==◌}

-- An instant, counted from Go's zero `time.Time`.
abbrev pub Time : Type 0
Time = ℕ

-- `time.Time.IsZero`
abbrev pub is_zero_time : Time → Bool
is_zero_time t = t == 0

-- A float64 is its bit pattern. The program copies floats and compares them with zero.
abbrev pub Float64 : Type 0
Float64 = ℕ

-- A nilable `*Dairytime`.
abbrev pub Dairytime : Type 0
Dairytime = Option Time

pub record QueryFilter : Type 0 where
  pub page : ℕ
  pub limit : ℕ
  pub created_after : Time
  pub created_before : Time
  pub updated_after : Time
  pub updated_before : Time
  pub include_archived : Bool
