-- ===== src/Api/Numbers.antt =====
-- `strconv.ParseUint(s, 10, 64)`, which reads the path parameters and the query parameters, and
-- `strconv.FormatUint(n, 10)`.
pub mod Printing
use dairycart.Prelude.{
  ℕ, zero, suc, ◌+◌, ◌-◌, ◌*◌, ◌/◌, ◌%◌, ◌==◌, ◌^◌, String, List, [], ◌∷◌, ◌&&◌, leb, ltb,
  if◌then◌else◌, codes,
}
use Prim.Native.Char.{Char}
use dairycart.Storage.Answers.{nil, failed, Answer}

abbrev pub max_uint64 : ℕ
max_uint64 = 2 ^ 64 - 1

-- The digits left to right; `n` is what was read.
unfoldable pub parse_digits : ℕ → List ℕ → Answer ℕ
parse_digits n [] = record { value = n; err = nil }
parse_digits n (c ∷ cs) =
    let m = n * 10 + (c - 48) in
    let rest = parse_digits m cs in
    if leb 48 c && leb c 57
    then (if ltb max_uint64 m
        then record { value = max_uint64; err = failed "value out of range" }
        else rest)
    else record { value = 0; err = failed "invalid syntax" }

abbrev pub parse_codes : List ℕ → Answer ℕ
parse_codes [] = record { value = 0; err = failed "invalid syntax" }
parse_codes (c ∷ cs) = parse_digits 0 (c ∷ cs)

unfoldable pub parse_uint : String → Answer ℕ
unfolding parse_digits
parse_uint s = parse_codes (codes s)

-- An id out of a path, with the error dropped.
abbrev pub path_id : String → ℕ
path_id s = (parse_uint s).value

abbrev pub digit : ℕ → Char
digit d =
    if d == 0
    then "0"
    else if d == 1
    then "1"
    else if d == 2
    then "2"
    else if d == 3
    then "3"
    else if d == 4
    then "4"
    else if d == 5
    then "5"
    else if d == 6
    then "6"
    else if d == 7
    then "7"
    else if d == 8
    then "8"
    else "9"

-- The digits of `n` before `rest`. The fuel is more than the number of digits.
unfoldable pub format_digits : ℕ → ℕ → String → String
format_digits zero n rest = rest
format_digits (suc fuel) n rest =
    let more = format_digits fuel (n / 10) (String.◌∷◌ (digit (n % 10)) rest) in
    if ltb n 10 then String.◌∷◌ (digit n) rest else more

unfoldable pub format_uint : ℕ → String
unfolding format_digits
format_uint n = format_digits (suc n) n ""
