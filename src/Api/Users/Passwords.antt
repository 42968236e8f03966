-- ===== src/Api/Users/Passwords.antt =====
-- Passwords, inputs and sessions in api/v1/users.go.
pub mod Safe
use dairycart.Prelude.{
  ℕ, ◌+◌, ◌<◌, String, Bool, true, false, not, ◌||◌, Option, none, some, str_eq, ltb, leb, ◌==◌,
  len, if◌then◌else◌,
}
use dairycart.Models.Users.{User, UserResponse, UserCreationInput, UserUpdateInput}
use dairycart.Storage.Answers.{Err, nil, failed, is_err, Answer}
use dairycart.Http.Messages.{Session}
use dairycart.Http.Handler.{Handler, ◌>>=◌, ◌>>◌, when_return}
use dairycart.Api.Respond.{respond_error}

-- golang.org/x/crypto/bcrypt: `GenerateFromPassword` at a cost, `CompareHashAndPassword` (hash first)
-- and `Cost`; and `mail.ParseAddress`.
pub record Crypto : Type 0 where
  pub default_cost : ℕ
  pub generate : String → ℕ → Answer String
  pub compare_hash : String → String → Err
  pub cost : String → Answer ℕ
  pub parse_address : String → Err

abbrev pub minimum_password_size : ℕ
minimum_password_size = 16

unfoldable pub password_is_valid : String → Bool
password_is_valid s = leb minimum_password_size (len s)

abbrev pub hash_cost : Crypto → ℕ
hash_cost crypto = crypto.default_cost + 3

unfoldable pub hash_password : Crypto → String → Answer String
hash_password crypto password = crypto.generate password (hash_cost crypto)

unfoldable pub password_matches : Crypto → String → String → Bool
password_matches crypto provided stored = not (is_err (crypto.compare_hash stored provided))

-- The flag and the error of `passwordIsTooWeak`.
unfoldable pub password_is_too_weak : Crypto → String → Answer Bool
password_is_too_weak crypto hashed =
    let c = crypto.cost hashed in record { value = not (c.value == hash_cost crypto); err = c.err }

unfoldable pub create_user_from_input : Crypto → UserCreationInput → Answer User
unfolding hash_password
create_user_from_input crypto input =
    let hashed = hash_password crypto input.password in
    record {
      value = record {
        id = 0;
        first_name = input.first_name;
        last_name = input.last_name;
        username = input.username;
        email = input.email;
        password = hashed.value;
        is_admin = input.is_admin;
        password_last_changed_on = none;
        created_on = 0;
        updated_on = none;
        archived_on = none;
      };
      err = hashed.err;
    }

unfoldable pub create_user_from_update_input : UserUpdateInput → String → User
create_user_from_update_input input hashed_password = record {
  id = 0;
  first_name = input.first_name;
  last_name = input.last_name;
  username = input.username;
  email = input.email;
  password = hashed_password;
  is_admin = false;
  password_last_changed_on = none;
  created_on = 0;
  updated_on = none;
  archived_on = none;
}

unfoldable pub create_user_response_from_user : User → UserResponse
create_user_response_from_user u = record {
  id = u.id;
  first_name = u.first_name;
  last_name = u.last_name;
  username = u.username;
  email = u.email;
  is_admin = u.is_admin;
  password_last_changed_on = u.password_last_changed_on;
  created_on = u.created_on;
  updated_on = u.updated_on;
  archived_on = u.archived_on;
}

-- validateUserCreationInput, for an input that is not nil.
unfoldable pub validate_user_creation_input : Crypto → UserCreationInput → Err
validate_user_creation_input crypto input =
    if is_err (crypto.parse_address input.email)
    then failed "email address must be valid"
    else if str_eq input.first_name ""
    then failed "first name must not be empty"
    else if str_eq input.last_name ""
    then failed "last name must not be empty"
    else if str_eq input.username ""
    then failed "username must not be empty"
    else if ltb (len input.password) minimum_password_size
    then failed "password must be at least 16 characters"
    else nil

-- `v, ok := session.Values[key].(bool)`: `!ok || !v`
abbrev pub is_not_set : Option Bool → Bool
is_not_set (some b) = not b
is_not_set none = true

-- The session of somebody who has just authenticated.
abbrev pub session_of : ℕ → Bool → Session
session_of id admin = record { user_id = some id; authenticated = some true; is_admin = some admin }

unfoldable pub validate_session_cookie_middleware :
    {D : Type 0} → Answer Session → Handler D (Unit {0}) → Handler D (Unit {0})
validate_session_cookie_middleware session next_handler = do
  let values = session.value
  when_return (is_not_set values.authenticated || is_err session.err)
      (respond_error 401 "Unauthorized")
  next_handler
