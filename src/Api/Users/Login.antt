-- ===== src/Api/Users/Login.antt =====
-- Logging in and out, and password resets, in api/v1/users.go.
pub mod Safe
pub mod Reset
pub mod Weak
use dairycart.Prelude.{
  ℕ, min, ◌^◌, String, Bool, true, false, not, ◌||◌, Option, none, some, if◌then◌else◌,
}
use dairycart.Models.Basics.{Time}
use dairycart.Models.Users.{User, UserLoginInput, LoginAttempt, PasswordResetToken}
use dairycart.Storage.Answers.{Answer, Err, nil, failed, is_err, is_no_rows}
use dairycart.Storage.Storer.{Storer}
use dairycart.Http.Messages.{Session, reset_token}
use dairycart.Http.Handler.{
  Handler, pure, ◌>>=◌, ◌>>◌, query_db, exec_db, write_header, encode, when_return, save_session,
  or_fail, succeed,
}
use dairycart.Api.Respond.{
  validate_request_input, respond_that_row_does_not_exist, notify_of_invalid_request_body,
  notify_of_invalid_request_cookie, notify_of_internal_issue,
  notify_of_invalid_authentication_attempt, notify_of_exhausted_authentication_attempts, check_body,
  check_internal, check_row,
}
use dairycart.Api.Users.Passwords.{
  Crypto, hash_password, password_matches, password_is_too_weak, session_of,
}

abbrev pub attempt : String → Bool → LoginAttempt
attempt username successful = record {
  id = 0;
  username = username;
  successful = successful;
  created_on = 0;
}

abbrev pub new_token : ℕ → String → PasswordResetToken
new_token user_id token = record {
  id = 0;
  user_id = user_id;
  token = token;
  created_on = 0;
  expires_on = 0;
  password_reset_on = none;
}

module _ {D : Type 0} (s : Storer D) where
  -- The branch for a password whose hash has another cost: it hashes the stored hash.
  unfoldable pub rehash : Crypto → Bool → User → Handler D User
  rehash crypto false user = pure user
  rehash crypto true user = do
    let hashed = hash_password crypto user.password
    check_body hashed.err
    let updated = record user { password = hashed.value }
    written ← exec_db (s.update_user updated)
    check_internal written.err
    pure updated

  unfoldable pub user_login :
      Crypto
      → (UserLoginInput → Bool)
      → Answer UserLoginInput
      → Answer Session
      → Handler D (Unit {0})
  unfolding rehash password_matches password_is_too_weak
  user_login crypto is_zero body session = do
    check_body (validate_request_input is_zero body)
    let input = body.value
    exhausted ← query_db (s.login_attempts_have_been_exhausted input.username)
    when_return exhausted.value notify_of_exhausted_authentication_attempts
    check_internal exhausted.err
    found ← query_db (s.get_user_by_username input.username)
    check_row found.err "user" input.username
    let stored = found.value
    let login_valid = password_matches crypto input.password stored.password
    logged ← exec_db (s.create_login_attempt (attempt input.username login_valid))
    check_internal logged.err
    when_return (not login_valid) notify_of_invalid_authentication_attempt
    let too_weak = password_is_too_weak crypto stored.password
    check_body too_weak.err
    user ← rehash crypto too_weak.value stored
    when_return (is_err session.err) notify_of_invalid_request_cookie
    -- `loginValid` is true from here on
    save_session (session_of user.id user.is_admin)
    write_header 200

  unfoldable pub user_logout : Answer Session → Handler D (Unit {0})
  user_logout session = do
    when_return (is_err session.err) notify_of_invalid_request_cookie
    let values = session.value
    save_session (record values { authenticated = some false })
    write_header 200

  -- `token` is what uniuri.NewLen(128) returned.
  unfoldable pub forgotten_password :
      (UserLoginInput → Bool) → String → Answer UserLoginInput → Handler D (Unit {0})
  forgotten_password is_zero token body = do
    check_body (validate_request_input is_zero body)
    let input = body.value
    found ← query_db (s.get_user_by_username input.username)
    check_row found.err "user" input.username
    let user = found.value
    known ← query_db (s.password_reset_token_for_user_id_exists user.id)
    when_return (is_err known.err || known.value)
        (notify_of_invalid_request_body "user has existent, non-expired password reset request")
    let new = new_token user.id token
    created ← exec_db (s.create_password_reset_token new)
    check_internal created.err
    encode
        (reset_token (record new { id = created.value.id; created_on = created.value.created_on }))

  unfoldable pub reset_token_validation : String → Handler D (Unit {0})
  reset_token_validation token = do
    known ← query_db (s.password_reset_token_with_token_exists token)
    when_return (is_err known.err || not known.value) (write_header 404)
    write_header 200
