-- ===== src/Postgres/Options.antt =====
-- storage/v1/database/postgres/product_options.go on the table product_options.
use dairycart.Prelude.{ℕ, String, Bool, true, false, Option, none, some, List, [], ◌∷◌}
use dairycart.Models.Basics.{Time, QueryFilter}
use dairycart.Models.Options.{ProductOption}
use dairycart.Storage.Answers.{Query, Command, Created}
use dairycart.Postgres.Statements.{
  Table, Where, is_number, is_text, not_archived, both, select_one, select_all, select_exists,
  insert_returning, update_returning, update_silently, created_at, not_created, Queries, dates,
  filtered, scanned_list,
}

-- CREATE TABLE product_options
abbrev pub product_option_schema : List String
product_option_schema =
    "id" ∷ "name" ∷ "product_root_id" ∷ "created_on" ∷ "updated_on" ∷ "archived_on" ∷ []

-- &models.ProductOption{}
abbrev pub no_product_option : ProductOption
no_product_option = record {
  id = 0;
  name = "";
  product_root_id = 0;
  created_on = 0;
  updated_on = none;
  archived_on = none;
  values = [];
}

-- WHERE id = $1
abbrev pub product_option_with_id : ℕ → Where ProductOption
product_option_with_id = is_number "id" (λ r. r.id)

-- WHERE archived_on IS NULL AND id = $1
abbrev pub live_product_option : ℕ → Where ProductOption
live_product_option id = both (not_archived (λ r. r.archived_on)) (product_option_with_id id)

unfoldable pub product_option_exists : ℕ → Query (Table ProductOption) Bool
product_option_exists id = select_exists product_option_schema ("id" ∷ []) (live_product_option id)

unfoldable pub get_product_option : ℕ → Query (Table ProductOption) ProductOption
get_product_option id =
    select_one product_option_schema no_product_option product_option_schema
      (live_product_option id)

-- WHERE product_root_id = $1
abbrev pub option_of_root : ℕ → Where ProductOption
option_of_root = is_number "product_root_id" (λ r. r.product_root_id)

-- SELECT EXISTS(SELECT 1 FROM ...), which names no column of its own.
unfoldable pub product_option_with_name_exists_for_product_root :
    String → ℕ → Query (Table ProductOption) Bool
product_option_with_name_exists_for_product_root name root_id =
    select_exists product_option_schema [] (
      both (both (is_text "name" (λ r. r.name) name) (option_of_root root_id))
        (not_archived (λ r. r.archived_on)))

unfoldable pub get_product_options_by_product_root_id :
    (List ProductOption → List ProductOption) → ℕ → Query (Table ProductOption) (List ProductOption)
get_product_options_by_product_root_id arrange root_id =
    select_all product_option_schema arrange product_option_schema (option_of_root root_id)

abbrev pub product_option_dates : String → ProductOption → Option Time
product_option_dates c r = dates r.created_on r.updated_on r.archived_on c

module _ {Q : Type 0} (sq : Queries Q) where
  unfoldable pub build_product_option_list_retrieval_query : QueryFilter → Q
  build_product_option_list_retrieval_query qf =
      filtered sq product_option_schema "product_options" qf true

  unfoldable pub get_product_option_list :
      QueryFilter → Query (Table ProductOption) (List ProductOption)
  unfolding build_product_option_list_retrieval_query
  get_product_option_list qf t = scanned_list sq (
      sq.answer_rows product_option_schema product_option_dates
        (build_product_option_list_retrieval_query qf) t.rows)

  unfoldable pub build_product_option_count_retrieval_query : QueryFilter → Q
  build_product_option_count_retrieval_query qf =
      filtered sq ("count(id)" ∷ []) "product_options" qf false

  unfoldable pub get_product_option_count : QueryFilter → Query (Table ProductOption) ℕ
  unfolding build_product_option_count_retrieval_query
  get_product_option_count qf t =
      sq.answer_count product_option_schema product_option_dates
        (build_product_option_count_retrieval_query qf) t.rows

-- The columns that the INSERT and the UPDATE write.
abbrev pub inserted_product_option_columns : List String
inserted_product_option_columns = "name" ∷ "product_root_id" ∷ []

abbrev pub updated_product_option_columns : List String
updated_product_option_columns = "name" ∷ "product_root_id" ∷ "updated_on" ∷ []

-- The columns that the caller does not give are the serial id, NOW() and NULL.
abbrev pub inserted_product_option : Time → ProductOption → ℕ → ProductOption
inserted_product_option now new id = record new {
  id = id;
  created_on = now;
  updated_on = none;
  archived_on = none;
  values = [];
}

unfoldable pub create_product_option : Time → ProductOption → Command (Table ProductOption) Created
create_product_option now new =
    insert_returning product_option_schema inserted_product_option_columns
      ("id" ∷ "created_on" ∷ []) not_created (created_at now) (inserted_product_option now new)

-- SET of the columns.
abbrev pub set_product_option_columns : ProductOption → Time → ProductOption → ProductOption
set_product_option_columns updated now r = record updated {
  id = r.id;
  updated_on = some now;
  created_on = r.created_on;
  archived_on = r.archived_on;
  values = [];
}

unfoldable pub update_product_option : Time → ProductOption → Command (Table ProductOption) Time
update_product_option now updated =
    update_returning product_option_schema updated_product_option_columns
      (product_option_with_id updated.id) (set_product_option_columns updated now) now

abbrev pub archived_product_option : Time → ProductOption → ProductOption
archived_product_option now r = record r { archived_on = some now }

unfoldable pub delete_product_option : Time → ℕ → Command (Table ProductOption) Time
delete_product_option now id =
    update_returning product_option_schema ("archived_on" ∷ []) (product_option_with_id id)
      (archived_product_option now) now

unfoldable pub archive_product_options_with_product_root_id :
    Time → ℕ → Command (Table ProductOption) Time
archive_product_options_with_product_root_id now root_id =
    update_silently product_option_schema ("archived_on" ∷ [])
      (both (option_of_root root_id) (not_archived (λ r. r.archived_on)))
      (archived_product_option now)
