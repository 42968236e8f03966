-- ===== src/Prelude/Texts.antt =====
-- Texts: equality, concatenation (what `fmt.Sprintf` does with `%s`), `strings.Join`, and the code
-- points of a text. `len` counts the bytes of a text, as Go's does.
use Prim.Native.Nat.{ℕ}
use Prim.Native.Char.{code}
use mathlib.Core.List.{List, [], ◌∷◌}
use Prim.Native.String
use Prim.Native.String.{String}
pub use Prim.Native.String.{len}
pub use text.Mathlib.Text.{◌==◌ as str_eq}
pub use text.Mathlib.TextEquality.{eq_iff as str_eq_iff}
pub use text.Mathlib.TextPositions.{eq_refl as str_eq-refl}

abbrev pub codes : String → List ℕ
codes String.[] = []
codes (String.◌∷◌ c s) = code c ∷ codes s

abbrev pub concat : List String → String
concat [] = ""
concat (s ∷ []) = s
concat (s ∷ t ∷ ss) = String.◌++◌ s (concat (t ∷ ss))

-- strings.Join(parts, sep)
abbrev pub join : String → List String → String
join sep [] = ""
join sep (s ∷ []) = s
join sep (s ∷ t ∷ ss) = String.◌++◌ s (String.◌++◌ sep (join sep (t ∷ ss)))
