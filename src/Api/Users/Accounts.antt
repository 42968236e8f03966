-- ===== src/Api/Users/Accounts.antt =====
-- Creating, updating and deleting users in api/v1/users.go.
pub mod Safe
pub mod Update
use dairycart.Prelude.{
  ℕ, ◌-◌, min, ◌^◌, String, Bool, true, false, not, ◌||◌, ◌&&◌, Option, none, some, str_eq,
  if◌then◌else◌,
}
use dairycart.Models.Basics.{Time}
use dairycart.Models.Users.{User, UserCreationInput, UserUpdateInput}
use dairycart.Storage.Answers.{Err, Answer, is_err}
use dairycart.Storage.Storer.{Storer}
use dairycart.Http.Messages.{Session, user, user_response, display_user}
use dairycart.Http.Handler.{
  Handler, ◌>>=◌, ◌>>◌, query_db, exec_db, write_header, encode, when_return, save_session,
}
use dairycart.Api.Numbers.{parse_uint}
use dairycart.Api.Respond.{
  validate_request_input, respond_error, notify_of_invalid_request_body,
  notify_of_invalid_request_cookie, notify_of_invalid_authentication_attempt, check_body,
  check_internal, check_row,
}
use dairycart.Api.Users.Passwords.{
  Crypto, hash_password, password_is_valid, password_matches, create_user_from_input,
  create_user_from_update_input, create_user_response_from_user, validate_user_creation_input,
  is_not_set, session_of,
}

-- uint64(i) for i of strconv.ParseInt(s, 10, 64) or strconv.Atoi(s); the route admits digits only.
abbrev pub user_id_of : String → ℕ
user_id_of s = let a = parse_uint s in min a.value (2 ^ 63 - 1)

-- hashedPassword: the hash of the new password, or else the stored one.
unfoldable pub hashed_for_update : Crypto → UserUpdateInput → User → Answer String
unfolding hash_password
hashed_for_update crypto input existing =
    if not (str_eq input.new_password "")
    then hash_password crypto input.new_password
    else record { value = existing.password; err = Err.nil }

-- updatedUser: `merge` is mergo.Merge(dst, src), `now` is time.Now().
unfoldable pub updated_user : (User → User → User) → Time → UserUpdateInput → String → User → User
unfolding create_user_from_update_input
updated_user merge now input hashed existing =
    let merged = merge (create_user_from_update_input input hashed) existing in
    record merged {
      password_last_changed_on =
          if not (str_eq input.new_password "") then some now else merged.password_last_changed_on;
    }

module _ {D : Type 0} (s : Storer D) where
  unfoldable pub user_creation :
      Crypto
      → (UserCreationInput → Bool)
      → Answer UserCreationInput
      → Answer Session
      → Handler D (Unit {0})
  unfolding create_user_from_input
  user_creation crypto is_zero body session = do
    check_body (validate_request_input is_zero body)
    let input = body.value
    check_body (validate_user_creation_input crypto input)
    when_return (is_err session.err) notify_of_invalid_request_cookie
    let values = session.value
    when_return (input.is_admin && is_not_set values.is_admin)
        (respond_error 403 "User is not authorized to create admin users")
    known ← query_db (s.user_with_username_exists input.username)
    when_return (is_err known.err || known.value)
        (notify_of_invalid_request_body "username already taken")
    let made = create_user_from_input crypto input
    check_internal made.err
    let new = made.value
    created ← exec_db (s.create_user new)
    check_internal created.err
    save_session (session_of created.value.id new.is_admin)
    write_header 201
    encode (
        display_user (record {
          id = created.value.id;
          first_name = new.first_name;
          last_name = new.last_name;
          email = new.email;
          is_admin = new.is_admin;
          created_on = created.value.created_on;
          updated_on = none;
          archived_on = none;
        }))

  unfoldable pub user_deletion : String → Answer Session → Handler D (Unit {0})
  user_deletion id_str session = do
    let id = user_id_of id_str
    found ← query_db (s.get_user id)
    check_row found.err "user" id_str
    when_return (is_err session.err) notify_of_invalid_request_cookie
    let values = session.value
    when_return (is_not_set values.is_admin)
        (respond_error 403 "User is not authorized to delete users")
    archived ← exec_db (s.delete_user id)
    check_internal archived.err
    let existing = found.value
    encode (
        user_response
          (create_user_response_from_user (record existing { archived_on = some archived.value })))

  unfoldable pub user_update :
      Crypto
      → (UserUpdateInput → Bool)
      → (User → User → User)
      → Time
      → String
      → Answer UserUpdateInput
      → Handler D (Unit {0})
  user_update crypto is_zero merge now id_str body = do
    check_body (validate_request_input is_zero body)
    let input = body.value
    when_return (not (str_eq input.new_password "") && not (password_is_valid input.new_password))
        (notify_of_invalid_request_body "provided password is invalid")
    found ← query_db (s.get_user (user_id_of id_str))
    check_row found.err "user ID" id_str
    let existing = found.value
    when_return (not (password_matches crypto input.current_password existing.password))
        notify_of_invalid_authentication_attempt
    let hashed = hashed_for_update crypto input existing
    check_internal hashed.err
    let updated = updated_user merge now input hashed.value existing
    written ← exec_db (s.update_user updated)
    check_internal written.err
    encode (user (record updated { updated_on = some written.value }))
