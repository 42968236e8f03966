-- ===== src/Postgres/ResetTokens.antt =====
-- storage/v1/database/postgres/password_reset_tokens.go on the table password_reset_tokens.
use dairycart.Prelude.{ℕ, String, Bool, true, false, Option, none, List, [], ltb, ◌∷◌}
use dairycart.Models.Basics.{Time, QueryFilter}
use dairycart.Models.Users.{PasswordResetToken}
use dairycart.Storage.Answers.{Query, Command, Created}
use dairycart.Postgres.Statements.{
  Table, Where, is_number, is_text, not_archived_nowhere, both, select_one, select_exists,
  insert_returning, update_returning, created_at, not_created, Queries, dates, filtered,
  scanned_list,
}

-- CREATE TABLE password_reset_tokens
abbrev pub password_reset_token_schema : List String
password_reset_token_schema =
    "id" ∷ "user_id" ∷ "token" ∷ "created_on" ∷ "expires_on" ∷ "password_reset_on" ∷ []

-- &models.PasswordResetToken{}
abbrev pub no_password_reset_token : PasswordResetToken
no_password_reset_token = record {
  id = 0;
  user_id = 0;
  token = "";
  created_on = 0;
  expires_on = 0;
  password_reset_on = none;
}

-- WHERE id = $1
abbrev pub password_reset_token_with_id : ℕ → Where PasswordResetToken
password_reset_token_with_id = is_number "id" (λ r. r.id)

-- WHERE archived_on IS NULL AND id = $1
abbrev pub live_password_reset_token : ℕ → Where PasswordResetToken
live_password_reset_token id = both (not_archived_nowhere) (password_reset_token_with_id id)

unfoldable pub password_reset_token_exists : ℕ → Query (Table PasswordResetToken) Bool
password_reset_token_exists id =
    select_exists password_reset_token_schema ("id" ∷ []) (live_password_reset_token id)

unfoldable pub get_password_reset_token : ℕ → Query (Table PasswordResetToken) PasswordResetToken
get_password_reset_token id =
    select_one password_reset_token_schema no_password_reset_token password_reset_token_schema
      (live_password_reset_token id)

-- AND NOW() < expires_on
abbrev pub unexpired : Time → Where PasswordResetToken
unexpired now = record { names = "expires_on" ∷ []; holds = λ r. ltb now r.expires_on }

unfoldable pub password_reset_token_for_user_id_exists :
    Time → ℕ → Query (Table PasswordResetToken) Bool
password_reset_token_for_user_id_exists now id =
    select_exists password_reset_token_schema ("id" ∷ [])
      (both (is_number "user_id" (λ r. r.user_id) id) (unexpired now))

unfoldable pub password_reset_token_with_token_exists :
    Time → String → Query (Table PasswordResetToken) Bool
password_reset_token_with_token_exists now token =
    select_exists password_reset_token_schema ("id" ∷ [])
      (both (is_text "token" (λ r. r.token) token) (unexpired now))

abbrev pub password_reset_token_dates : String → PasswordResetToken → Option Time
password_reset_token_dates c r = dates r.created_on none none c

module _ {Q : Type 0} (sq : Queries Q) where
  unfoldable pub build_password_reset_token_list_retrieval_query : QueryFilter → Q
  build_password_reset_token_list_retrieval_query qf =
      filtered sq password_reset_token_schema "password_reset_tokens" qf true

  unfoldable pub get_password_reset_token_list :
      QueryFilter → Query (Table PasswordResetToken) (List PasswordResetToken)
  unfolding build_password_reset_token_list_retrieval_query
  get_password_reset_token_list qf t = scanned_list sq (
      sq.answer_rows password_reset_token_schema password_reset_token_dates
        (build_password_reset_token_list_retrieval_query qf) t.rows)

  unfoldable pub build_password_reset_token_count_retrieval_query : QueryFilter → Q
  build_password_reset_token_count_retrieval_query qf =
      filtered sq ("count(id)" ∷ []) "password_reset_tokens" qf false

  unfoldable pub get_password_reset_token_count : QueryFilter → Query (Table PasswordResetToken) ℕ
  unfolding build_password_reset_token_count_retrieval_query
  get_password_reset_token_count qf t =
      sq.answer_count password_reset_token_schema password_reset_token_dates
        (build_password_reset_token_count_retrieval_query qf) t.rows

-- The columns that the INSERT and the UPDATE write.
abbrev pub inserted_password_reset_token_columns : List String
inserted_password_reset_token_columns =
    "user_id" ∷ "token" ∷ "expires_on" ∷ "password_reset_on" ∷ []

abbrev pub updated_password_reset_token_columns : List String
updated_password_reset_token_columns =
    "user_id" ∷ "token" ∷ "expires_on" ∷ "password_reset_on" ∷ "updated_on" ∷ []

-- The columns that the caller does not give are the serial id, NOW() and NULL.
abbrev pub inserted_password_reset_token : Time → PasswordResetToken → ℕ → PasswordResetToken
inserted_password_reset_token now new id = record new { id = id; created_on = now }

unfoldable pub create_password_reset_token :
    Time → PasswordResetToken → Command (Table PasswordResetToken) Created
create_password_reset_token now new =
    insert_returning password_reset_token_schema inserted_password_reset_token_columns
      ("id" ∷ "created_on" ∷ []) not_created (created_at now)
      (inserted_password_reset_token now new)

-- SET of the columns.
abbrev pub set_password_reset_token_columns :
    PasswordResetToken → Time → PasswordResetToken → PasswordResetToken
set_password_reset_token_columns updated now r = record updated {
  id = r.id;
  created_on = r.created_on;
}

unfoldable pub update_password_reset_token :
    Time → PasswordResetToken → Command (Table PasswordResetToken) Time
update_password_reset_token now updated =
    update_returning password_reset_token_schema updated_password_reset_token_columns
      (password_reset_token_with_id updated.id) (set_password_reset_token_columns updated now) now

unfoldable pub delete_password_reset_token : Time → ℕ → Command (Table PasswordResetToken) Time
delete_password_reset_token now id =
    update_returning password_reset_token_schema ("archived_on" ∷ [])
      (password_reset_token_with_id id) (λ r. r) now
