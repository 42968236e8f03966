-- ===== src/Api/Filter.antt =====
-- `parseRawFilterParams` of api/v1/helpers.go.
pub mod Bounds
use dairycart.Prelude.{
  ℕ, zero, suc, ◌+◌, ◌*◌, ◌/◌, ◌%◌, ◌^◌, min, max, String, List, [], ◌∷◌, Option, none, some, Bool,
  false, ltb, ◌==◌, if◌then◌else◌,
}
use dairycart.Models.Basics.{Time, QueryFilter}
use dairycart.Storage.Answers.{is_err, Answer}
use dairycart.Api.Numbers.{parse_uint}

-- A float64 that `strconv.ParseFloat` read: NaN, below zero, +Inf, or the integer part of a number.
pub data Parsed : Type 0 where
  nan negative infinite : Parsed
  nonnegative : ℕ → Parsed

-- What Go leaves to the implementation, and `strconv.ParseFloat`.
pub record Platform : Type 0 where
  pub parse_float : String → Answer Parsed
  -- uint8(NaN), and uint64(f) for f = 2^64
  pub uint8_of_nan : ℕ
  pub uint64_of_big : ℕ

-- The multiple of `unit` nearest to `n`, a tie to the even one.
unfoldable pub round_to : ℕ → ℕ → ℕ
round_to n unit =
    let q = n / unit in
    let r = n % unit in
    if ltb (2 * r) unit
    then q * unit
    else if ltb unit (2 * r)
    then (q + 1) * unit
    else if q % 2 == 0
    then q * unit
    else (q + 1) * unit

-- float64(n): a float64 has 53 bits, so a number from 2^53 * unit on is rounded to a larger unit.
unfoldable pub to_float64 : ℕ → ℕ → ℕ → ℕ
unfolding round_to
to_float64 zero unit n = round_to n unit
to_float64 (suc halvings) unit n =
    if ltb n (2 ^ 53 * unit) then round_to n unit else to_float64 halvings (2 * unit) n

-- uint64(math.Max(float64(i), 1)); 11 halvings take a uint64 to 53 bits.
unfoldable pub clamp_page : Platform → ℕ → ℕ
unfolding to_float64
clamp_page platform i =
    let f = max (to_float64 11 1 i) 1 in if ltb f (2 ^ 64) then f else platform.uint64_of_big

-- uint8(math.Max(math.Min(i, MaxLimit), 0))
unfoldable pub clamp_limit : Platform → Parsed → ℕ
clamp_limit platform nan = platform.uint8_of_nan
clamp_limit platform negative = 0
clamp_limit platform infinite = 50
clamp_limit platform (nonnegative n) = min n 50

-- The first value under a key, as an unsigned number; `none` if there is none or it is malformed.
abbrev uint_value : Answer ℕ → Option ℕ
uint_value a = if is_err a.err then none else some a.value

abbrev pub uint_param : List String → Option ℕ
uint_param [] = none
uint_param (v ∷ vs) = uint_value (parse_uint v)

abbrev float_value : Answer Parsed → Option Parsed
float_value a = if is_err a.err then none else some a.value

abbrev pub float_param : Platform → List String → Option Parsed
float_param platform [] = none
float_param platform (v ∷ vs) = float_value (platform.parse_float v)

abbrev pub page_or_default : Platform → Option ℕ → ℕ
page_or_default platform none = 1
page_or_default platform (some i) = clamp_page platform i

abbrev pub limit_or_default : Platform → Option Parsed → ℕ
limit_or_default platform none = 25
limit_or_default platform (some f) = clamp_limit platform f

-- time.Unix(int64(i), 0): Go counts seconds from year 1 in an int64 that wraps.
abbrev time_or_zero : Option ℕ → Time
time_or_zero none = 0
time_or_zero (some i) = (i + 62_135_596_800) % 2 ^ 64

unfoldable pub parse_raw_filter_params : Platform → (String → List String) → QueryFilter
parse_raw_filter_params platform raw = record {
  page = page_or_default platform (uint_param (raw "page"));
  limit = limit_or_default platform (float_param platform (raw "limit"));
  updated_after = time_or_zero (uint_param (raw "updated_after"));
  updated_before = time_or_zero (uint_param (raw "updated_before"));
  created_after = time_or_zero (uint_param (raw "created_after"));
  created_before = time_or_zero (uint_param (raw "created_before"));
  include_archived = false;
}
