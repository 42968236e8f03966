-- ===== src/Tests/Crypto.antt =====
-- A small stand-in for bcrypt.
use dairycart.Prelude.{String, str_eq, if◌then◌else◌}
use dairycart.Storage.Answers.{nil, failed}
use dairycart.Api.Users.Passwords.{Crypto}
use dairycart.Tests.Data.{good}

abbrev pub sharp : String → String
sharp p = String.◌∷◌ "#" p

-- A password hashed is the password after a sharp; every hash has the cost 10.
abbrev pub toy_crypto : Crypto
toy_crypto = record {
  default_cost = 10;
  generate = λ p c. good (sharp p);
  compare_hash = λ h p. if str_eq h (sharp p) then nil else failed "mismatch";
  cost = λ h. good 10;
  parse_address = λ a. nil;
}
