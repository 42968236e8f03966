-- ===== src/Postgres/Products.antt =====
-- storage/v1/database/postgres/products.go on the table products.
use dairycart.Prelude.{ℕ, String, Bool, true, false, Option, none, some, List, [], ◌∷◌}
use dairycart.Models.Basics.{Float64, Time, QueryFilter}
use dairycart.Models.Products.{Product}
use dairycart.Storage.Answers.{Query, Command}
use dairycart.Storage.Storer.{CreatedProduct}
use dairycart.Postgres.Statements.{
  Table, Where, is_number, is_text, not_archived, both, select_one, select_all, select_exists,
  insert_returning, update_returning, Queries, dates, filtered, scanned_list,
}

-- CREATE TABLE products
abbrev pub product_schema : List String
product_schema =
    "id" ∷ "product_root_id" ∷ "primary_image_id" ∷ "name" ∷ "subtitle" ∷ "description"
    ∷ "option_summary" ∷ "sku" ∷ "upc" ∷ "manufacturer" ∷ "brand" ∷ "quantity" ∷ "taxable" ∷ "price"
    ∷ "on_sale" ∷ "sale_price" ∷ "cost" ∷ "product_weight" ∷ "product_height" ∷ "product_width"
    ∷ "product_length" ∷ "package_weight" ∷ "package_height" ∷ "package_width" ∷ "package_length"
    ∷ "quantity_per_package" ∷ "available_on" ∷ "created_on" ∷ "updated_on" ∷ "archived_on" ∷ []

-- &models.Product{}
abbrev pub no_product : Product
no_product = record {
  id = 0;
  product_root_id = 0;
  primary_image_id = none;
  name = "";
  subtitle = "";
  description = "";
  option_summary = "";
  sku = "";
  upc = "";
  manufacturer = "";
  brand = "";
  quantity = 0;
  taxable = false;
  price = 0;
  on_sale = false;
  sale_price = 0;
  cost = 0;
  product_weight = 0;
  product_height = 0;
  product_width = 0;
  product_length = 0;
  package_weight = 0;
  package_height = 0;
  package_width = 0;
  package_length = 0;
  quantity_per_package = 0;
  available_on = 0;
  created_on = 0;
  updated_on = none;
  archived_on = none;
  images = [];
  applicable_option_values = [];
}

-- WHERE id = $1
abbrev pub product_with_id : ℕ → Where Product
product_with_id = is_number "id" (λ r. r.id)

-- WHERE archived_on IS NULL AND id = $1
abbrev pub live_product : ℕ → Where Product
live_product id = both (not_archived (λ r. r.archived_on)) (product_with_id id)

unfoldable pub product_exists : ℕ → Query (Table Product) Bool
product_exists id = select_exists product_schema ("id" ∷ []) (live_product id)

unfoldable pub get_product : ℕ → Query (Table Product) Product
get_product id = select_one product_schema no_product product_schema (live_product id)

unfoldable pub get_product_by_sku : String → Query (Table Product) Product
get_product_by_sku sku =
    select_one product_schema no_product product_schema
      (both (not_archived (λ r. r.archived_on)) (is_text "sku" (λ r. r.sku) sku))

unfoldable pub product_with_sku_exists : String → Query (Table Product) Bool
product_with_sku_exists sku =
    select_exists product_schema ("id" ∷ [])
      (both (is_text "sku" (λ r. r.sku) sku) (not_archived (λ r. r.archived_on)))

-- WHERE product_root_id = $1
abbrev pub product_of_root : ℕ → Where Product
product_of_root = is_number "product_root_id" (λ r. r.product_root_id)

unfoldable pub get_products_by_product_root_id :
    (List Product → List Product) → ℕ → Query (Table Product) (List Product)
get_products_by_product_root_id arrange root_id =
    select_all product_schema arrange product_schema (product_of_root root_id)

abbrev pub product_dates : String → Product → Option Time
product_dates c r = dates r.created_on r.updated_on r.archived_on c

module _ {Q : Type 0} (sq : Queries Q) where
  unfoldable pub build_product_list_retrieval_query : QueryFilter → Q
  build_product_list_retrieval_query qf = filtered sq product_schema "products" qf true

  unfoldable pub get_product_list : QueryFilter → Query (Table Product) (List Product)
  unfolding build_product_list_retrieval_query
  get_product_list qf t =
      scanned_list sq
        (sq.answer_rows product_schema product_dates (build_product_list_retrieval_query qf) t.rows)

  unfoldable pub build_product_count_retrieval_query : QueryFilter → Q
  build_product_count_retrieval_query qf = filtered sq ("count(id)" ∷ []) "products" qf false

  unfoldable pub get_product_count : QueryFilter → Query (Table Product) ℕ
  unfolding build_product_count_retrieval_query
  get_product_count qf t =
      sq.answer_count product_schema product_dates (build_product_count_retrieval_query qf) t.rows

-- The columns that the INSERT and the UPDATE write.
abbrev pub inserted_product_columns : List String
inserted_product_columns =
    "product_root_id" ∷ "primary_image_id" ∷ "name" ∷ "subtitle" ∷ "description" ∷ "option_summary"
    ∷ "sku" ∷ "upc" ∷ "manufacturer" ∷ "brand" ∷ "quantity" ∷ "taxable" ∷ "price" ∷ "on_sale"
    ∷ "sale_price" ∷ "cost" ∷ "product_weight" ∷ "product_height" ∷ "product_width"
    ∷ "product_length" ∷ "package_weight" ∷ "package_height" ∷ "package_width" ∷ "package_length"
    ∷ "quantity_per_package" ∷ "available_on" ∷ []

abbrev pub updated_product_columns : List String
updated_product_columns =
    "product_root_id" ∷ "primary_image_id" ∷ "name" ∷ "subtitle" ∷ "description" ∷ "option_summary"
    ∷ "sku" ∷ "upc" ∷ "manufacturer" ∷ "brand" ∷ "quantity" ∷ "taxable" ∷ "price" ∷ "on_sale"
    ∷ "sale_price" ∷ "cost" ∷ "product_weight" ∷ "product_height" ∷ "product_width"
    ∷ "product_length" ∷ "package_weight" ∷ "package_height" ∷ "package_width" ∷ "package_length"
    ∷ "quantity_per_package" ∷ "available_on" ∷ "updated_on" ∷ []

-- The columns that the caller does not give are the serial id, NOW() and NULL. `numeric` is what a
-- column of type numeric(15, 2) holds of a float64.
abbrev pub inserted_product : (Float64 → Float64) → Time → Product → ℕ → Product
inserted_product numeric now new id = record new {
  price = numeric new.price;
  sale_price = numeric new.sale_price;
  cost = numeric new.cost;
  product_weight = numeric new.product_weight;
  product_height = numeric new.product_height;
  product_width = numeric new.product_width;
  product_length = numeric new.product_length;
  package_weight = numeric new.package_weight;
  package_height = numeric new.package_height;
  package_width = numeric new.package_width;
  package_length = numeric new.package_length;
  id = id;
  created_on = now;
  updated_on = none;
  archived_on = none;
  images = [];
  applicable_option_values = [];
}

abbrev pub no_created_product : CreatedProduct
no_created_product = record { id = 0; created_on = 0; available_on = 0 }

unfoldable pub create_product :
    (Float64 → Float64) → Time → Product → Command (Table Product) CreatedProduct
create_product numeric now new =
    insert_returning product_schema inserted_product_columns
      ("id" ∷ "created_on" ∷ "available_on" ∷ []) no_created_product
      (λ id. record { id = id; created_on = now; available_on = new.available_on })
      (inserted_product numeric now new)

-- SET of the columns.
abbrev pub set_product_columns : (Float64 → Float64) → Product → Time → Product → Product
set_product_columns numeric updated now r = record updated {
  price = numeric updated.price;
  sale_price = numeric updated.sale_price;
  cost = numeric updated.cost;
  product_weight = numeric updated.product_weight;
  product_height = numeric updated.product_height;
  product_width = numeric updated.product_width;
  product_length = numeric updated.product_length;
  package_weight = numeric updated.package_weight;
  package_height = numeric updated.package_height;
  package_width = numeric updated.package_width;
  package_length = numeric updated.package_length;
  id = r.id;
  updated_on = some now;
  created_on = r.created_on;
  archived_on = r.archived_on;
  images = [];
  applicable_option_values = [];
}

unfoldable pub update_product : (Float64 → Float64) → Time → Product → Command (Table Product) Time
update_product numeric now updated =
    update_returning product_schema updated_product_columns (product_with_id updated.id)
      (set_product_columns numeric updated now) now

abbrev pub archived_product : Time → Product → Product
archived_product now r = record r { archived_on = some now }

unfoldable pub delete_product : Time → ℕ → Command (Table Product) Time
delete_product now id =
    update_returning product_schema ("archived_on" ∷ []) (product_with_id id) (archived_product now)
      now

unfoldable pub archive_products_with_product_root_id : Time → ℕ → Command (Table Product) Time
archive_products_with_product_root_id now root_id =
    update_returning product_schema ("archived_on" ∷ []) (product_of_root root_id)
      (archived_product now) now

-- assignProductImageIDToProductQuery of product_images.go
unfoldable pub set_primary_product_image_for_product : Time → ℕ → ℕ → Command (Table Product) Time
set_primary_product_image_for_product now product_id image_id =
    update_returning product_schema ("primary_image_id" ∷ "updated_on" ∷ [])
      (is_number "id" (λ r. r.id) product_id)
      (λ r. record r { primary_image_id = some image_id; updated_on = some now }) now
