-- ===== src/Api/Numbers/Printing.antt =====
-- What is printed as a number has digits only.
use dairycart.Prelude.{
  ℕ, zero, suc, ◌+◌, ◌/◌, ◌%◌, ◌≤◌, ◌<◌, ◌≡◌, refl, String, true, Bool-cases, inl, inr, ltb, leb,
  ltb→lt, ltb→le, codes, length, arith,
}
use Prim.Native.Char.{Char, code}
use dairycart.Api.Routes.{all_digits, is_numeric}
use dairycart.Api.Numbers.{digit, format_digits, format_uint}

digit-code : (d : ℕ) → d < 10 → code (digit d) ≡ 48 + d
digit-code zero h = refl
digit-code (suc zero) h = refl
digit-code (suc (suc zero)) h = refl
digit-code (suc (suc (suc zero))) h = refl
digit-code (suc (suc (suc (suc zero)))) h = refl
digit-code (suc (suc (suc (suc (suc zero))))) h = refl
digit-code (suc (suc (suc (suc (suc (suc zero)))))) h = refl
digit-code (suc (suc (suc (suc (suc (suc (suc zero))))))) h = refl
digit-code (suc (suc (suc (suc (suc (suc (suc (suc zero)))))))) h = refl
digit-code (suc (suc (suc (suc (suc (suc (suc (suc (suc zero))))))))) h = refl
digit-code (suc (suc (suc (suc (suc (suc (suc (suc (suc (suc n)))))))))) h = absurd (omega arith)

low : (d : ℕ) → leb 48 (48 + d) ≡ true
low d = ground arith

high : (d : ℕ) → d < 10 → leb (48 + d) 57 ≡ true
high d h = ground arith

div_fuel : (n fuel : ℕ) → n < suc fuel → 10 ≤ n → n / 10 < fuel
div_fuel n fuel h k = omega arith

mod_lt : (n : ℕ) → n % 10 < 10
mod_lt n = omega arith

digits-format :
    (fuel n : ℕ) (rest : String)
    → n < fuel
    → all_digits (codes rest) ≡ true
    → all_digits (codes (format_digits fuel n rest)) ≡ true
unfolding format_digits
digits-format zero n rest h e = absurd (omega arith)
digits-format (suc fuel) n rest h e = elim (Bool-cases (ltb n 10)) [
  | inl small ↦ rw (small, digit-code n (ltb→lt n 10 small), low n, high n (ltb→lt n 10 small)) e
  | inr large ↦ rw large (
      digits-format fuel (n / 10) (String.◌∷◌ (digit (n % 10)) rest)
        (div_fuel n fuel h (ltb→le n 10 large))
        (rw (digit-code (n % 10) (mod_lt n), low (n % 10), high (n % 10) (mod_lt n)) e))
]

one_le : (n : ℕ) → leb 1 (suc n) ≡ true
one_le n = ground arith

length_started :
    (fuel n : ℕ) (c : Char) (rest : String)
    → leb 1 (length (codes (format_digits fuel n (String.◌∷◌ c rest)))) ≡ true
unfolding format_digits
length_started zero n c rest = one_le _
length_started (suc fuel) n c rest = elim (Bool-cases (ltb n 10)) [
  | inl small ↦ rw small (one_le _)
  | inr large ↦ rw large (length_started fuel (n / 10) (digit (n % 10)) (String.◌∷◌ c rest))
]

length_printed : (fuel n : ℕ) → leb 1 (length (codes (format_digits (suc fuel) n ""))) ≡ true
unfolding format_digits
length_printed fuel n = elim (Bool-cases (ltb n 10)) [
  | inl small ↦ rw small refl
  | inr large ↦ rw large (length_started fuel (n / 10) (digit (n % 10)) "")
]

-- An id that was printed is accepted where a route asks for a number.
pub is_numeric-format_uint : (n : ℕ) → is_numeric (format_uint n) ≡ true
unfolding is_numeric format_uint
is_numeric-format_uint n = rw (length_printed n n) (digits-format (suc n) n "" (omega arith) refl)
