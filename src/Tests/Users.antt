-- ===== src/Tests/Users.antt =====
-- Users, logins and passwords.
use dairycart.Prelude.{
  true, [], ◌∷◌, false, ◌||◌, ◌==◌, ◌≡◌, ◌≢◌, ◌⊎◌, inl, inr, refl, sym, Bool-cases, str_eq,
  str_eq_iff, if◌then◌else◌, none, some,
}
use dairycart.Models.Users.{User, UserLoginInput}
use dairycart.Storage.Answers.{nil, is_err}
use dairycart.Http.Messages.{error}
use dairycart.Http.Handler.{fresh}
use dairycart.Api.Users.Passwords.{password_matches, password_is_too_weak, session_of}
use dairycart.Api.Users.Login.{attempt, user_login, forgotten_password}
use dairycart.Api.Users.Login.Reset.{IsReset, forgotten_password_safe}
use dairycart.Api.Users.Login.Safe.{IsLogin, user_login_safe, wrong_password_logged}
use dairycart.Api.Users.Login.Weak.{weak_login-rehashed}
use dairycart.Api.Users.Accounts.{user_creation, user_deletion, user_update}
use dairycart.Api.Users.Accounts.Safe.{
  IsUserCreation, IsUserDeletion, user_creation_safe, user_deletion_safe,
}
use dairycart.Api.Users.Accounts.Update.{IsUserUpdate, IsFilling, IsNonempty, user_update_safe}
use dairycart.Tests.Crypto.{toy_crypto}
use dairycart.Tests.Data.{ada_input, ada_change, ada_login, admin_session, good, store}

toy_crypto-IsNonempty : IsNonempty toy_crypto
toy_crypto-IsNonempty p c ok e = cc

abbrev merge_users : User → User → User
merge_users u v = record u {
  id = if u.id == 0 then v.id else u.id;
  is_admin = u.is_admin || v.is_admin;
  password = if str_eq u.password "" then v.password else u.password;
}

merged_password :
    (u v : User)
    → (u.password ≢ "") ⊎ (u.password ≡ v.password)
    → (if str_eq u.password "" then v.password else u.password) ≡ u.password
merged_password u v (inl h) = elim (Bool-cases (str_eq u.password "")) [
  | inl t ↦ absurd (h ((str_eq_iff u.password "").0 t))
  | inr f ↦ rw f refl
]
merged_password u v (inr h) = elim (Bool-cases (str_eq u.password "")) [
  | inl t ↦ rw t (sym h)
  | inr f ↦ rw f refl
]

merge_users-IsFilling : IsFilling merge_users
merge_users-IsFilling = record {
  on_id = λ u v e. rw e refl;
  on_admin = λ u v e. rw e refl;
  on_password = λ u v h. merged_password u v h;
}

user_login_safe_example :
    IsLogin store toy_crypto ada_login 5
      (user_login store toy_crypto (λ i. false) (good ada_login) (good admin_session) (fresh 5))
user_login_safe_example =
    user_login_safe store toy_crypto (λ i. false) (good ada_login) (good admin_session) 5

abbrev wrong_login : UserLoginInput
wrong_login = record { username = "ada"; password = "guess" }

wrong_password_logged_example :
    let (flow, w) =
      user_login store toy_crypto (λ i. false) (good wrong_login) (good admin_session) (fresh 5) in
    let logged = store.create_login_attempt (attempt "ada" false) 5 in
    (w.db ≡ 6)
    × (w.cookie ≡ none)
    × ((logged.0.err ≡ nil)
          × (w.status ≡ some 401)
          × (w.body
              ≡ error (record { status = 401; message = "Invalid email and/or password" }) ∷ [])
        ⊎ (is_err logged.0.err ≡ true) × (w.status ≡ some 500))
unfolding password_matches
wrong_password_logged_example =
    wrong_password_logged store toy_crypto (λ i. false) (good wrong_login) (good admin_session) 5
      (refl, refl, refl) refl

weak_login-rehashed_example :
    let (flow, w) =
      user_login store toy_crypto (λ i. false) (good ada_login) (good admin_session) (fresh 5) in
    (w.status ≡ some 200) × (w.cookie ≡ some (session_of 9 false)) × (w.db ≡ 7)
unfolding password_matches password_is_too_weak
weak_login-rehashed_example =
    weak_login-rehashed store toy_crypto (λ i. false) (good ada_login) (good admin_session) 5
      (refl, refl, refl) (refl, refl, refl, refl, refl, refl)

user_creation_safe_example :
    IsUserCreation store toy_crypto ada_input
      (good admin_session)
      5
      (user_creation store toy_crypto (λ i. false) (good ada_input) (good admin_session) (fresh 5))
user_creation_safe_example =
    user_creation_safe store toy_crypto (λ i. false) (good ada_input) (good admin_session) 5

user_deletion_safe_example :
    IsUserDeletion store toy_crypto "9"
      (good admin_session)
      5
      (user_deletion store "9" (good admin_session) (fresh 5))
user_deletion_safe_example = user_deletion_safe store toy_crypto "9" (good admin_session) 5

user_update_safe_example :
    IsUserUpdate store toy_crypto "9" ada_change 5
      (user_update store toy_crypto (λ i. false) merge_users 300 "9" (good ada_change) (fresh 5))
user_update_safe_example =
    user_update_safe store toy_crypto merge_users merge_users-IsFilling toy_crypto-IsNonempty
      (λ i. false) 300 "9" (good ada_change) 5

forgotten_password_safe_example :
    let (flow, w) = forgotten_password store (λ i. false) "token" (good ada_login) (fresh 5) in
    IsReset store "token" ada_login 5 w
forgotten_password_safe_example =
    forgotten_password_safe store (λ i. false) "token" (good ada_login) 5
