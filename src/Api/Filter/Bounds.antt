-- ===== src/Api/Filter/Bounds.antt =====
-- The page and the limit that `parseRawFilterParams` takes out of a query string.
use dairycart.Prelude.{
  ℕ, zero, suc, ◌*◌, ◌%◌, ◌^◌, ◌≤◌, ◌<◌, max, String, Bool, true, false, List, Option, none, some,
  ◌≡◌, ◌∙◌, refl, ltb, lt→ltb, if◌then◌else◌, arith,
}
use dairycart.Api.Filter.{
  Platform, Parsed, nan, negative, infinite, nonnegative, round_to, to_float64, clamp_page,
  clamp_limit, uint_param, float_param, page_or_default, limit_or_default, parse_raw_filter_params,
}

-- A number below 2^53 is a float64.
round_to-unit : (n : ℕ) → round_to n 1 ≡ n
unfolding round_to
round_to-unit n = rw (lt→ltb (2 * (n % 1)) 1 (omega arith)) (omega arith)

to_float64_exact : (halvings n : ℕ) → n < 2 ^ 53 → to_float64 halvings 1 n ≡ n
unfolding to_float64
to_float64_exact zero n h = round_to-unit n
to_float64_exact (suc k) n h = rw (lt→ltb n (2 ^ 53) h) (round_to-unit n)

clamp_page_exact : (platform : Platform) (i : ℕ) → i < 2 ^ 53 → clamp_page platform i ≡ max i 1
unfolding clamp_page
clamp_page_exact platform i h =
    rw (to_float64_exact 11 i h) (rw (lt→ltb (max i 1) (2 ^ 64) (omega arith)) refl)

if_positive : (c : Bool) (m n : ℕ) → 1 ≤ m → 1 ≤ n → 1 ≤ (if c then m else n)
if_positive true m n p q = p
if_positive false m n p q = q

max_positive : (n : ℕ) → 1 ≤ max n 1
max_positive n = omega arith

clamp_page_positive :
    (platform : Platform) (i : ℕ) → 1 ≤ platform.uint64_of_big → 1 ≤ clamp_page platform i
unfolding clamp_page
clamp_page_positive platform i h =
    if_positive (ltb (max (to_float64 11 1 i) 1) (2 ^ 64)) (max (to_float64 11 1 i) 1) _
      (max_positive (to_float64 11 1 i)) h

clamp_limit_bound :
    (platform : Platform) (f : Parsed) → clamp_limit platform f ≤ max 50 platform.uint8_of_nan
unfolding clamp_limit
clamp_limit_bound platform nan = omega arith
clamp_limit_bound platform negative = omega arith
clamp_limit_bound platform infinite = omega arith
clamp_limit_bound platform (nonnegative n) = omega arith

page_bound :
    (platform : Platform) (o : Option ℕ)
    → 1 ≤ platform.uint64_of_big
    → 1 ≤ page_or_default platform o
page_bound platform none h = omega arith
page_bound platform (some i) h = clamp_page_positive platform i h

limit_bound :
    (platform : Platform) (o : Option Parsed)
    → limit_or_default platform o ≤ max 50 platform.uint8_of_nan
limit_bound platform none = omega arith
limit_bound platform (some f) = clamp_limit_bound platform f

-- Whatever the query string, the page is at least 1 and the limit at most 50, or what the platform makes
-- of NaN as a uint8; on a platform where a float64 of 2^64 does not become the page 0.
pub parse_raw_filter_params_bounds :
    (platform : Platform) (raw : String → List String)
    → 1 ≤ platform.uint64_of_big
    → let qf = parse_raw_filter_params platform raw in
      (1 ≤ qf.page) × (qf.limit ≤ max 50 platform.uint8_of_nan)
unfolding parse_raw_filter_params
parse_raw_filter_params_bounds platform raw h = (
  page_bound platform (uint_param (raw "page")) h,
  limit_bound platform (float_param platform (raw "limit")),
)

max_one : (n : ℕ) → 1 ≤ n → max n 1 ≡ n
max_one n h = omega arith

clamp_limit_exact :
    (platform : Platform) (n : ℕ) → n ≤ 50 → clamp_limit platform (nonnegative n) ≡ n
unfolding clamp_limit
clamp_limit_exact platform n h = omega arith

-- A page from 1 up to 2^53 and a limit from 0 up to 50 are taken as they are written.
parse_raw_filter_params_exact :
    (platform : Platform) (raw : String → List String) (page limit : ℕ)
    → uint_param (raw "page") ≡ some page
    → 1 ≤ page
    → page < 2 ^ 53
    → float_param platform (raw "limit") ≡ some (nonnegative limit)
    → limit ≤ 50
    → let qf = parse_raw_filter_params platform raw in (qf.page ≡ page) × (qf.limit ≡ limit)
unfolding parse_raw_filter_params
parse_raw_filter_params_exact platform raw page limit p positive small l bound = (
  rw p (clamp_page_exact platform page small ∙ max_one page positive),
  rw l (clamp_limit_exact platform limit bound),
)
