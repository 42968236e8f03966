-- ===== src/Postgres/LoginAttempts.antt =====
-- storage/v1/database/postgres/login_attempts.go on the table login_attempts.
use dairycart.Prelude.{
  ℕ, String, Bool, true, false, Option, none, List, [], ltb, leb, length, filter, str_eq, not, ◌∷◌,
  ◌&&◌, ◌+◌,
}
use dairycart.Models.Basics.{Time, QueryFilter}
use dairycart.Models.Users.{LoginAttempt}
use dairycart.Storage.Answers.{Query, Command, Created, nil}
use dairycart.Postgres.Statements.{
  Table, Where, is_number, not_archived_nowhere, both, select_one, select_exists, insert_returning,
  update_returning, created_at, not_created, Queries, dates, filtered, scanned_list,
  undefined_column, answered,
}

-- CREATE TABLE login_attempts
abbrev pub login_attempt_schema : List String
login_attempt_schema = "id" ∷ "username" ∷ "successful" ∷ "created_on" ∷ []

-- &models.LoginAttempt{}
abbrev pub no_login_attempt : LoginAttempt
no_login_attempt = record { id = 0; username = ""; successful = false; created_on = 0 }

-- WHERE id = $1
abbrev pub login_attempt_with_id : ℕ → Where LoginAttempt
login_attempt_with_id = is_number "id" (λ r. r.id)

-- WHERE archived_on IS NULL AND id = $1
abbrev pub live_login_attempt : ℕ → Where LoginAttempt
live_login_attempt id = both (not_archived_nowhere) (login_attempt_with_id id)

unfoldable pub login_attempt_exists : ℕ → Query (Table LoginAttempt) Bool
login_attempt_exists id = select_exists login_attempt_schema ("id" ∷ []) (live_login_attempt id)

unfoldable pub get_login_attempt : ℕ → Query (Table LoginAttempt) LoginAttempt
get_login_attempt id =
    select_one login_attempt_schema no_login_attempt login_attempt_schema (live_login_attempt id)

-- 15 * interval '1 minute', in seconds
abbrev pub attempt_window : ℕ
attempt_window = 900

-- WHERE username = $1 AND created_on < NOW() AND successful IS false
-- AND created_on > (NOW() - (15 * interval '1 minute'))
abbrev pub failed_recently : Time → String → LoginAttempt → Bool
failed_recently now username a =
    str_eq a.username username
    && ltb a.created_on now
    && not a.successful
    && ltb now (a.created_on + attempt_window)

unfoldable pub login_attempts_have_been_exhausted : Time → String → Query (Table LoginAttempt) Bool
login_attempts_have_been_exhausted now username t =
    answered
      (undefined_column login_attempt_schema ("id" ∷ "username" ∷ "created_on" ∷ "successful" ∷ []))
      false
      (record { value = leb 10 (length (filter (failed_recently now username) t.rows)); err = nil })

abbrev pub login_attempt_dates : String → LoginAttempt → Option Time
login_attempt_dates c r = dates r.created_on none none c

module _ {Q : Type 0} (sq : Queries Q) where
  unfoldable pub build_login_attempt_list_retrieval_query : QueryFilter → Q
  build_login_attempt_list_retrieval_query qf =
      filtered sq login_attempt_schema "login_attempts" qf true

  unfoldable pub get_login_attempt_list :
      QueryFilter → Query (Table LoginAttempt) (List LoginAttempt)
  unfolding build_login_attempt_list_retrieval_query
  get_login_attempt_list qf t = scanned_list sq (
      sq.answer_rows login_attempt_schema login_attempt_dates
        (build_login_attempt_list_retrieval_query qf) t.rows)

  unfoldable pub build_login_attempt_count_retrieval_query : QueryFilter → Q
  build_login_attempt_count_retrieval_query qf =
      filtered sq ("count(id)" ∷ []) "login_attempts" qf false

  unfoldable pub get_login_attempt_count : QueryFilter → Query (Table LoginAttempt) ℕ
  unfolding build_login_attempt_count_retrieval_query
  get_login_attempt_count qf t =
      sq.answer_count login_attempt_schema login_attempt_dates
        (build_login_attempt_count_retrieval_query qf) t.rows

-- The columns that the INSERT and the UPDATE write.
abbrev pub inserted_login_attempt_columns : List String
inserted_login_attempt_columns = "username" ∷ "successful" ∷ []

abbrev pub updated_login_attempt_columns : List String
updated_login_attempt_columns = "username" ∷ "successful" ∷ "updated_on" ∷ []

-- The columns that the caller does not give are the serial id, NOW() and NULL.
abbrev pub inserted_login_attempt : Time → LoginAttempt → ℕ → LoginAttempt
inserted_login_attempt now new id = record new { id = id; created_on = now }

unfoldable pub create_login_attempt : Time → LoginAttempt → Command (Table LoginAttempt) Created
create_login_attempt now new =
    insert_returning login_attempt_schema inserted_login_attempt_columns ("id" ∷ "created_on" ∷ [])
      not_created (created_at now) (inserted_login_attempt now new)

-- SET of the columns.
abbrev pub set_login_attempt_columns : LoginAttempt → Time → LoginAttempt → LoginAttempt
set_login_attempt_columns updated now r = record updated { id = r.id; created_on = r.created_on }

unfoldable pub update_login_attempt : Time → LoginAttempt → Command (Table LoginAttempt) Time
update_login_attempt now updated =
    update_returning login_attempt_schema updated_login_attempt_columns
      (login_attempt_with_id updated.id) (set_login_attempt_columns updated now) now

unfoldable pub delete_login_attempt : Time → ℕ → Command (Table LoginAttempt) Time
delete_login_attempt now id =
    update_returning login_attempt_schema ("archived_on" ∷ []) (login_attempt_with_id id) (λ r. r)
      now
