-- ===== src/Postgres/OptionValues.antt =====
-- storage/v1/database/postgres/product_option_values.go on the table product_option_values.
use dairycart.Prelude.{ℕ, String, Bool, true, false, Option, none, some, List, [], ◌∷◌, ◌==◌, ◌&&◌}
use dairycart.Models.Basics.{Time, QueryFilter}
use dairycart.Models.Options.{ProductOptionValue, ProductOption}
use dairycart.Storage.Answers.{Query, Command, Created}
use dairycart.Postgres.Rows.{any}
use dairycart.Postgres.Statements.{
  Table, Where, is_number, is_text, not_archived, both, select_one, select_all, select_exists,
  insert_returning, update_returning, update_silently, created_at, not_created, Queries, dates,
  filtered, scanned_list,
}

-- CREATE TABLE product_option_values
abbrev pub product_option_value_schema : List String
product_option_value_schema =
    "id" ∷ "product_option_id" ∷ "value" ∷ "created_on" ∷ "updated_on" ∷ "archived_on" ∷ []

-- &models.ProductOptionValue{}
abbrev pub no_product_option_value : ProductOptionValue
no_product_option_value = record {
  id = 0;
  product_option_id = 0;
  value = "";
  created_on = 0;
  updated_on = none;
  archived_on = none;
}

-- WHERE id = $1
abbrev pub product_option_value_with_id : ℕ → Where ProductOptionValue
product_option_value_with_id = is_number "id" (λ r. r.id)

-- WHERE archived_on IS NULL AND id = $1
abbrev pub live_product_option_value : ℕ → Where ProductOptionValue
live_product_option_value id =
    both (not_archived (λ r. r.archived_on)) (product_option_value_with_id id)

unfoldable pub product_option_value_exists : ℕ → Query (Table ProductOptionValue) Bool
product_option_value_exists id =
    select_exists product_option_value_schema ("id" ∷ []) (live_product_option_value id)

unfoldable pub get_product_option_value : ℕ → Query (Table ProductOptionValue) ProductOptionValue
get_product_option_value id =
    select_one product_option_value_schema no_product_option_value product_option_value_schema
      (live_product_option_value id)

-- WHERE product_option_id = $1
abbrev pub value_of_option : ℕ → Where ProductOptionValue
value_of_option = is_number "product_option_id" (λ r. r.product_option_id)

unfoldable pub product_option_value_for_option_id_exists :
    ℕ → String → Query (Table ProductOptionValue) Bool
product_option_value_for_option_id_exists option_id value =
    select_exists product_option_value_schema ("id" ∷ []) (
      both (both (value_of_option option_id) (is_text "value" (λ r. r.value) value))
        (not_archived (λ r. r.archived_on)))

unfoldable pub get_product_option_values_for_option :
    (List ProductOptionValue → List ProductOptionValue)
    → ℕ
    → Query (Table ProductOptionValue) (List ProductOptionValue)
get_product_option_values_for_option arrange option_id =
    select_all product_option_value_schema arrange product_option_value_schema
      (both (not_archived (λ r. r.archived_on)) (value_of_option option_id))

abbrev pub product_option_value_dates : String → ProductOptionValue → Option Time
product_option_value_dates c r = dates r.created_on r.updated_on r.archived_on c

module _ {Q : Type 0} (sq : Queries Q) where
  unfoldable pub build_product_option_value_list_retrieval_query : QueryFilter → Q
  build_product_option_value_list_retrieval_query qf =
      filtered sq product_option_value_schema "product_option_values" qf true

  unfoldable pub get_product_option_value_list :
      QueryFilter → Query (Table ProductOptionValue) (List ProductOptionValue)
  unfolding build_product_option_value_list_retrieval_query
  get_product_option_value_list qf t = scanned_list sq (
      sq.answer_rows product_option_value_schema product_option_value_dates
        (build_product_option_value_list_retrieval_query qf) t.rows)

  unfoldable pub build_product_option_value_count_retrieval_query : QueryFilter → Q
  build_product_option_value_count_retrieval_query qf =
      filtered sq ("count(id)" ∷ []) "product_option_values" qf false

  unfoldable pub get_product_option_value_count : QueryFilter → Query (Table ProductOptionValue) ℕ
  unfolding build_product_option_value_count_retrieval_query
  get_product_option_value_count qf t =
      sq.answer_count product_option_value_schema product_option_value_dates
        (build_product_option_value_count_retrieval_query qf) t.rows

-- The columns that the INSERT and the UPDATE write.
abbrev pub inserted_product_option_value_columns : List String
inserted_product_option_value_columns = "product_option_id" ∷ "value" ∷ []

abbrev pub updated_product_option_value_columns : List String
updated_product_option_value_columns = "product_option_id" ∷ "value" ∷ "updated_on" ∷ []

-- The columns that the caller does not give are the serial id, NOW() and NULL.
abbrev pub inserted_product_option_value : Time → ProductOptionValue → ℕ → ProductOptionValue
inserted_product_option_value now new id = record new {
  id = id;
  created_on = now;
  updated_on = none;
  archived_on = none;
}

unfoldable pub create_product_option_value :
    Time → ProductOptionValue → Command (Table ProductOptionValue) Created
create_product_option_value now new =
    insert_returning product_option_value_schema inserted_product_option_value_columns
      ("id" ∷ "created_on" ∷ []) not_created (created_at now)
      (inserted_product_option_value now new)

-- SET of the columns.
abbrev pub set_product_option_value_columns :
    ProductOptionValue → Time → ProductOptionValue → ProductOptionValue
set_product_option_value_columns updated now r = record updated {
  id = r.id;
  updated_on = some now;
  created_on = r.created_on;
  archived_on = r.archived_on;
}

unfoldable pub update_product_option_value :
    Time → ProductOptionValue → Command (Table ProductOptionValue) Time
update_product_option_value now updated =
    update_returning product_option_value_schema updated_product_option_value_columns
      (product_option_value_with_id updated.id) (set_product_option_value_columns updated now) now

abbrev pub archived_product_option_value : Time → ProductOptionValue → ProductOptionValue
archived_product_option_value now r = record r { archived_on = some now }

unfoldable pub delete_product_option_value : Time → ℕ → Command (Table ProductOptionValue) Time
delete_product_option_value now id =
    update_returning product_option_value_schema ("archived_on" ∷ [])
      (product_option_value_with_id id) (archived_product_option_value now) now

unfoldable pub archive_product_option_values_for_option :
    Time → ℕ → Command (Table ProductOptionValue) Time
archive_product_option_values_for_option now option_id =
    update_returning product_option_value_schema ("archived_on" ∷ []) (value_of_option option_id)
      (archived_product_option_value now) now

-- WHERE product_option_id IN (SELECT id FROM product_options WHERE product_root_id = $1)
abbrev pub value_of_root : List ProductOption → ℕ → Where ProductOptionValue
value_of_root options root_id = record {
  names = "product_option_id" ∷ [];
  holds = λ r. any (λ o. o.id == r.product_option_id && o.product_root_id == root_id) options;
}

-- `options` are the rows of product_options.
unfoldable pub archive_product_option_values_with_product_root_id :
    Time → List ProductOption → ℕ → Command (Table ProductOptionValue) Time
archive_product_option_values_with_product_root_id now options root_id =
    update_silently product_option_value_schema ("archived_on" ∷ []) (value_of_root options root_id)
      (archived_product_option_value now)
