-- ===== src/Api/Users/Passwords/Safe.antt =====
-- What `validateUserCreationInput` admits, and who passes `validateSessionCookieMiddleware`.
use dairycart.Prelude.{
  ◌≤◌, String, Bool, true, false, ◌≡◌, ◌≢◌, refl, len, str_eq, str_eq_iff, ltb→le, if◌then◌else◌,
}
use dairycart.Models.Users.{UserCreationInput}
use dairycart.Storage.Answers.{Err, nil, failed, is_err}
use dairycart.Api.Users.Passwords.{Crypto, validate_user_creation_input}

-- A guard of the chain that did not fire.
passed :
    (c : Bool) (m : String) (e : Err) → (if c then failed m else e) ≡ nil → (c ≡ false) × (e ≡ nil)
passed true m e p = cc
passed false m e p = (refl, p)

nonempty : (t : String) → str_eq t "" ≡ false → t ≢ ""
nonempty t f p = let t_true = (str_eq_iff t "").1 p in cc

-- An input for a new user is accepted only with an address that parses, with a first name, a last name
-- and a username, and with a password of at least 16 bytes.
validate_user_creation_input_lem :
    (crypto : Crypto) (input : UserCreationInput)
    → validate_user_creation_input crypto input ≡ nil
    → (is_err (crypto.parse_address input.email) ≡ false)
      × (input.first_name ≢ "")
      × (input.last_name ≢ "")
      × (input.username ≢ "")
      × (16 ≤ len input.password)
unfolding validate_user_creation_input
validate_user_creation_input_lem crypto input p =
    let (address, p₁) = passed _ _ _ p in
    let (first, p₂) = passed _ _ _ p₁ in
    let (last, p₃) = passed _ _ _ p₂ in
    let (user, p₄) = passed _ _ _ p₃ in
    let (long, _) = passed _ _ _ p₄ in
    (address, nonempty _ first, nonempty _ last, nonempty _ user, ltb→le _ _ long)
