-- ===== src/Postgres/Users.antt =====
-- storage/v1/database/postgres/users.go on the table users.
use dairycart.Prelude.{ℕ, String, Bool, true, false, Option, none, some, List, [], ◌∷◌}
use dairycart.Models.Basics.{Time, QueryFilter}
use dairycart.Models.Users.{User}
use dairycart.Storage.Answers.{Query, Command, Created}
use dairycart.Postgres.Statements.{
  Table, Where, is_number, is_text, not_archived, both, select_one, select_exists, insert_returning,
  update_returning, created_at, not_created, Queries, dates, filtered, scanned_list,
}

-- CREATE TABLE users
abbrev pub user_schema : List String
user_schema =
    "id" ∷ "first_name" ∷ "last_name" ∷ "username" ∷ "email" ∷ "password" ∷ "is_admin"
    ∷ "password_last_changed_on" ∷ "created_on" ∷ "updated_on" ∷ "archived_on" ∷ []

-- &models.User{}
abbrev pub no_user : User
no_user = record {
  id = 0;
  first_name = "";
  last_name = "";
  username = "";
  email = "";
  password = "";
  is_admin = false;
  password_last_changed_on = none;
  created_on = 0;
  updated_on = none;
  archived_on = none;
}

-- WHERE id = $1
abbrev pub user_with_id : ℕ → Where User
user_with_id = is_number "id" (λ r. r.id)

-- WHERE archived_on IS NULL AND id = $1
abbrev pub live_user : ℕ → Where User
live_user id = both (not_archived (λ r. r.archived_on)) (user_with_id id)

unfoldable pub user_exists : ℕ → Query (Table User) Bool
user_exists id = select_exists user_schema ("id" ∷ []) (live_user id)

unfoldable pub get_user : ℕ → Query (Table User) User
get_user id = select_one user_schema no_user user_schema (live_user id)

-- WHERE archived_on IS NULL AND username = $1
abbrev pub live_username : String → Where User
live_username username =
    both (not_archived (λ r. r.archived_on)) (is_text "username" (λ r. r.username) username)

unfoldable pub get_user_by_username : String → Query (Table User) User
get_user_by_username username = select_one user_schema no_user user_schema (live_username username)

unfoldable pub user_with_username_exists : String → Query (Table User) Bool
user_with_username_exists username = select_exists user_schema ("id" ∷ []) (live_username username)

abbrev pub user_dates : String → User → Option Time
user_dates c r = dates r.created_on r.updated_on r.archived_on c

module _ {Q : Type 0} (sq : Queries Q) where
  unfoldable pub build_user_list_retrieval_query : QueryFilter → Q
  build_user_list_retrieval_query qf = filtered sq user_schema "users" qf true

  unfoldable pub get_user_list : QueryFilter → Query (Table User) (List User)
  unfolding build_user_list_retrieval_query
  get_user_list qf t =
      scanned_list sq
        (sq.answer_rows user_schema user_dates (build_user_list_retrieval_query qf) t.rows)

  unfoldable pub build_user_count_retrieval_query : QueryFilter → Q
  build_user_count_retrieval_query qf = filtered sq ("count(id)" ∷ []) "users" qf false

  unfoldable pub get_user_count : QueryFilter → Query (Table User) ℕ
  unfolding build_user_count_retrieval_query
  get_user_count qf t =
      sq.answer_count user_schema user_dates (build_user_count_retrieval_query qf) t.rows

-- The columns that the INSERT and the UPDATE write.
abbrev pub inserted_user_columns : List String
inserted_user_columns =
    "first_name" ∷ "last_name" ∷ "username" ∷ "email" ∷ "password" ∷ "is_admin"
    ∷ "password_last_changed_on" ∷ []

abbrev pub updated_user_columns : List String
updated_user_columns =
    "first_name" ∷ "last_name" ∷ "username" ∷ "email" ∷ "password" ∷ "is_admin"
    ∷ "password_last_changed_on" ∷ "updated_on" ∷ []

-- The columns that the caller does not give are the serial id, NOW() and NULL.
abbrev pub inserted_user : Time → User → ℕ → User
inserted_user now new id = record new {
  id = id;
  created_on = now;
  updated_on = none;
  archived_on = none;
}

unfoldable pub create_user : Time → User → Command (Table User) Created
create_user now new =
    insert_returning user_schema inserted_user_columns ("id" ∷ "created_on" ∷ []) not_created
      (created_at now) (inserted_user now new)

-- SET of the columns.
abbrev pub set_user_columns : User → Time → User → User
set_user_columns updated now r = record updated {
  id = r.id;
  updated_on = some now;
  created_on = r.created_on;
  archived_on = r.archived_on;
}

unfoldable pub update_user : Time → User → Command (Table User) Time
update_user now updated =
    update_returning user_schema updated_user_columns (user_with_id updated.id)
      (set_user_columns updated now) now

abbrev pub archived_user : Time → User → User
archived_user now r = record r { archived_on = some now }

unfoldable pub delete_user : Time → ℕ → Command (Table User) Time
delete_user now id =
    update_returning user_schema ("archived_on" ∷ []) (user_with_id id) (archived_user now) now

unfoldable pub update_password_for_user : Time → ℕ → String → Command (Table User) Time
update_password_for_user now id password =
    update_returning user_schema ("password" ∷ "updated_on" ∷ []) (user_with_id id)
      (λ r. record r { password = password; updated_on = some now }) now
