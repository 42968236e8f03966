-- ===== src/Config/Settings.antt =====
-- What the server reads of its configuration: spf13/viper.
use dairycart.Prelude.{ℕ, suc, ◌==◌, String, Bool, false, Option, [], ◌∷◌, concat}
use dairycart.Storage.Answers.{Err}
use dairycart.Api.Numbers.{format_uint}

-- Go's int.
pub data ℤ : Type 0 where
  pos : ℕ → ℤ
  negsuc : ℕ → ℤ

-- `%d`
abbrev pub format_int : ℤ → String
format_int (pos n) = format_uint n
format_int (negsuc n) = concat ("-" ∷ format_uint (suc n) ∷ [])

abbrev pub is_zero : ℤ → Bool
is_zero (pos n) = n == 0
is_zero (negsuc n) = false

pub data Setting : Type 0 where
  number : ℕ → Setting
  string : String → Setting
  boolean : Bool → Setting

-- A configuration `V`: `sub` is nil where the key holds no table, and `read_in_config` reads the file.
pub record Viper (V : Type 0) : Type 0 where
  pub new : V
  pub is_set : V → String → Bool
  pub get_string : V → String → String
  pub get_int : V → String → ℤ
  pub get_bool : V → String → Bool
  pub sub : V → String → Option V
  pub set_config_name : V → String → V
  pub set_config_file : V → String → V
  pub add_config_path : V → String → V
  pub set_default : V → String → Setting → V
  pub bind_env : V → String → String → V
  pub read_in_config : V → Err × V
  pub is_file_not_found : Err → Bool
