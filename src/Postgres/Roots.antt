-- ===== src/Postgres/Roots.antt =====
-- storage/v1/database/postgres/product_roots.go on the table product_roots.
use dairycart.Prelude.{ℕ, String, Bool, true, false, Option, none, some, List, [], ◌∷◌}
use dairycart.Models.Basics.{Float64, Time, QueryFilter}
use dairycart.Models.Roots.{ProductRoot}
use dairycart.Storage.Answers.{Query, Command, Created}
use dairycart.Postgres.Statements.{
  Table, Where, is_number, is_text, not_archived, both, select_one, select_exists, insert_returning,
  update_returning, created_at, not_created, Queries, dates, filtered, scanned_list,
}

-- CREATE TABLE product_roots
abbrev pub product_root_schema : List String
product_root_schema =
    "id" ∷ "name" ∷ "primary_image_id" ∷ "subtitle" ∷ "description" ∷ "sku_prefix" ∷ "manufacturer"
    ∷ "brand" ∷ "taxable" ∷ "cost" ∷ "product_weight" ∷ "product_height" ∷ "product_width"
    ∷ "product_length" ∷ "package_weight" ∷ "package_height" ∷ "package_width" ∷ "package_length"
    ∷ "quantity_per_package" ∷ "available_on" ∷ "created_on" ∷ "updated_on" ∷ "archived_on" ∷ []

-- &models.ProductRoot{}
abbrev pub no_product_root : ProductRoot
no_product_root = record {
  id = 0;
  name = "";
  primary_image_id = none;
  subtitle = "";
  description = "";
  sku_prefix = "";
  manufacturer = "";
  brand = "";
  taxable = false;
  cost = 0;
  product_weight = 0;
  product_height = 0;
  product_width = 0;
  product_length = 0;
  package_weight = 0;
  package_height = 0;
  package_width = 0;
  package_length = 0;
  quantity_per_package = 0;
  available_on = 0;
  created_on = 0;
  updated_on = none;
  archived_on = none;
  options = [];
  images = [];
  products = [];
}

-- WHERE id = $1
abbrev pub product_root_with_id : ℕ → Where ProductRoot
product_root_with_id = is_number "id" (λ r. r.id)

-- WHERE archived_on IS NULL AND id = $1
abbrev pub live_product_root : ℕ → Where ProductRoot
live_product_root id = both (not_archived (λ r. r.archived_on)) (product_root_with_id id)

unfoldable pub product_root_exists : ℕ → Query (Table ProductRoot) Bool
product_root_exists id = select_exists product_root_schema ("id" ∷ []) (live_product_root id)

unfoldable pub get_product_root : ℕ → Query (Table ProductRoot) ProductRoot
get_product_root id =
    select_one product_root_schema no_product_root product_root_schema (live_product_root id)

unfoldable pub product_root_with_sku_prefix_exists : String → Query (Table ProductRoot) Bool
product_root_with_sku_prefix_exists sku_prefix =
    select_exists product_root_schema ("id" ∷ []) (
      both (is_text "sku_prefix" (λ r. r.sku_prefix) sku_prefix)
        (not_archived (λ r. r.archived_on)))

abbrev pub product_root_dates : String → ProductRoot → Option Time
product_root_dates c r = dates r.created_on r.updated_on r.archived_on c

module _ {Q : Type 0} (sq : Queries Q) where
  unfoldable pub build_product_root_list_retrieval_query : QueryFilter → Q
  build_product_root_list_retrieval_query qf =
      filtered sq product_root_schema "product_roots" qf true

  unfoldable pub get_product_root_list : QueryFilter → Query (Table ProductRoot) (List ProductRoot)
  unfolding build_product_root_list_retrieval_query
  get_product_root_list qf t = scanned_list sq (
      sq.answer_rows product_root_schema product_root_dates
        (build_product_root_list_retrieval_query qf) t.rows)

  unfoldable pub build_product_root_count_retrieval_query : QueryFilter → Q
  build_product_root_count_retrieval_query qf =
      filtered sq ("count(id)" ∷ []) "product_roots" qf false

  unfoldable pub get_product_root_count : QueryFilter → Query (Table ProductRoot) ℕ
  unfolding build_product_root_count_retrieval_query
  get_product_root_count qf t =
      sq.answer_count product_root_schema product_root_dates
        (build_product_root_count_retrieval_query qf) t.rows

-- The columns that the INSERT and the UPDATE write.
abbrev pub inserted_product_root_columns : List String
inserted_product_root_columns =
    "name" ∷ "primary_image_id" ∷ "subtitle" ∷ "description" ∷ "sku_prefix" ∷ "manufacturer"
    ∷ "brand" ∷ "taxable" ∷ "cost" ∷ "product_weight" ∷ "product_height" ∷ "product_width"
    ∷ "product_length" ∷ "package_weight" ∷ "package_height" ∷ "package_width" ∷ "package_length"
    ∷ "quantity_per_package" ∷ "available_on" ∷ []

abbrev pub updated_product_root_columns : List String
updated_product_root_columns =
    "name" ∷ "primary_image_id" ∷ "subtitle" ∷ "description" ∷ "sku_prefix" ∷ "manufacturer"
    ∷ "brand" ∷ "taxable" ∷ "cost" ∷ "product_weight" ∷ "product_height" ∷ "product_width"
    ∷ "product_length" ∷ "package_weight" ∷ "package_height" ∷ "package_width" ∷ "package_length"
    ∷ "quantity_per_package" ∷ "available_on" ∷ "updated_on" ∷ []

-- The columns that the caller does not give are the serial id, NOW() and NULL. `numeric` is what a
-- column of type numeric(15, 2) holds of a float64.
abbrev pub inserted_product_root : (Float64 → Float64) → Time → ProductRoot → ℕ → ProductRoot
inserted_product_root numeric now new id = record new {
  cost = numeric new.cost;
  product_weight = numeric new.product_weight;
  product_height = numeric new.product_height;
  product_width = numeric new.product_width;
  product_length = numeric new.product_length;
  package_weight = numeric new.package_weight;
  package_height = numeric new.package_height;
  package_width = numeric new.package_width;
  package_length = numeric new.package_length;
  id = id;
  created_on = now;
  updated_on = none;
  archived_on = none;
  options = [];
  images = [];
  products = [];
}

unfoldable pub create_product_root :
    (Float64 → Float64) → Time → ProductRoot → Command (Table ProductRoot) Created
create_product_root numeric now new =
    insert_returning product_root_schema inserted_product_root_columns ("id" ∷ "created_on" ∷ [])
      not_created (created_at now) (inserted_product_root numeric now new)

-- SET of the columns.
abbrev pub set_product_root_columns :
    (Float64 → Float64) → ProductRoot → Time → ProductRoot → ProductRoot
set_product_root_columns numeric updated now r = record updated {
  cost = numeric updated.cost;
  product_weight = numeric updated.product_weight;
  product_height = numeric updated.product_height;
  product_width = numeric updated.product_width;
  product_length = numeric updated.product_length;
  package_weight = numeric updated.package_weight;
  package_height = numeric updated.package_height;
  package_width = numeric updated.package_width;
  package_length = numeric updated.package_length;
  id = r.id;
  updated_on = some now;
  created_on = r.created_on;
  archived_on = r.archived_on;
  options = [];
  images = [];
  products = [];
}

unfoldable pub update_product_root :
    (Float64 → Float64) → Time → ProductRoot → Command (Table ProductRoot) Time
update_product_root numeric now updated =
    update_returning product_root_schema updated_product_root_columns
      (product_root_with_id updated.id) (set_product_root_columns numeric updated now) now

abbrev pub archived_product_root : Time → ProductRoot → ProductRoot
archived_product_root now r = record r { archived_on = some now }

unfoldable pub delete_product_root : Time → ℕ → Command (Table ProductRoot) Time
delete_product_root now id =
    update_returning product_root_schema ("archived_on" ∷ []) (product_root_with_id id)
      (archived_product_root now) now
