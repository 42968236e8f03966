-- ===== src/Config/Loading.antt =====
-- api/v1/config.go: loading a symbol from a plugin, which runs the plugin's `init` functions.
use dairycart.Prelude.{
  String, Bool, true, ◌&&◌, Option, none, some, [], ◌∷◌, concat, ltb, str_eq, if◌then◌else◌,
}
use Prim.Native.Char.{code}
use dairycart.Storage.Answers.{Err, nil, failed, is_err, text, Answer}

-- `plugin.Open` and `Lookup`, and two functions of `strings`. A process `P` may be another after a plugin
-- is opened.
pub record Plugins (P G Y : Type 0) : Type 0 where
  pub open_plugin : String → P → Answer G × P
  pub lookup : G → String → Answer Y
  pub to_lower : String → String
  pub title : String → String

-- name[:1] == strings.ToLower(name[:1]), where the name is not empty. A byte that is no whole code point
-- is not its own lower case.
abbrev pub starts_low : (String → String) → String → Bool
starts_low to_lower String.[] = true
starts_low to_lower (String.◌∷◌ c s) =
    ltb (code c) 128 && str_eq (String.◌∷◌ c "") (to_lower (String.◌∷◌ c ""))

-- errors.Wrap(err, message)
abbrev pub wrap : String → Err → Err
wrap message e = failed (concat (message ∷ ": " ∷ text e ∷ []))

abbrev pub checked : {A : Type 0} → String → Option A → Answer (Option A)
checked message none = record { value = none; err = failed message }
checked message (some a) = record { value = some a; err = nil }

module _ {P G Y : Type 0} (pl : Plugins P G Y) where
  abbrev pub symbol : String → String
  symbol name = if starts_low pl.to_lower name then pl.title name else name

  abbrev pub found : Answer Y → Answer (Option Y)
  found a =
      if is_err a.err
      then record { value = none; err = wrap "failed to locate appropriate plugin symbol" a.err }
      else record { value = some a.value; err = nil }

  abbrev pub opened : String → Answer G × P → Answer (Option Y) × P
  opened name (a, p) = (
    if is_err a.err
        then record { value = none; err = wrap "failed to open plugin" a.err }
        else found (pl.lookup a.value (symbol name)),
    p,
  )

  unfoldable pub load_plugin : String → String → P → Answer (Option Y) × P
  load_plugin path name p =
      if str_eq path ""
      then (record { value = none; err = failed "plugin path cannot be empty" }, p)
      else if str_eq name ""
      then (record { value = none; err = failed "symbol name cannot be empty" }, p)
      else opened name (pl.open_plugin path p)

  abbrev pub asserted : {A : Type 0} → (Y → Option A) → String → Option Y → Answer (Option A)
  asserted assert message none = checked message none
  asserted assert message (some y) = checked message (assert y)

  -- Both `loadDatabasePlugin` and `loadImageStoragePlugin`: `assert` is the type assertion.
  abbrev pub typed :
      {A : Type 0} → (Y → Option A) → String → Answer (Option Y) × P → Answer (Option A) × P
  typed assert message (a, p) = (
    if is_err a.err
        then record { value = none; err = wrap "failed to load plugin" a.err }
        else asserted assert message a.value,
    p,
  )

  unfoldable pub load_as :
      {A : Type 0} → (Y → Option A) → String → String → String → P → Answer (Option A) × P
  unfolding load_plugin
  load_as assert message path name p = typed assert message (load_plugin path name p)
