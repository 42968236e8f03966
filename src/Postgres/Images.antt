-- ===== src/Postgres/Images.antt =====
-- storage/v1/database/postgres/product_images.go on the table product_images.
use dairycart.Prelude.{ℕ, String, Bool, true, false, Option, none, some, List, [], ◌∷◌}
use dairycart.Models.Basics.{Time, QueryFilter}
use dairycart.Models.Products.{ProductImage}
use dairycart.Storage.Answers.{Query, Command, Created}
use dairycart.Postgres.Statements.{
  Table, Where, is_number, not_archived, both, select_one, select_all, select_exists,
  insert_returning, update_returning, created_at, not_created, Queries, dates, filtered,
  scanned_list,
}

-- CREATE TABLE product_images
abbrev pub product_image_schema : List String
product_image_schema =
    "id" ∷ "product_root_id" ∷ "thumbnail_url" ∷ "main_url" ∷ "original_url" ∷ "source_url"
    ∷ "created_on" ∷ "updated_on" ∷ "archived_on" ∷ []

-- &models.ProductImage{}
abbrev pub no_product_image : ProductImage
no_product_image = record {
  id = 0;
  product_root_id = 0;
  thumbnail_url = "";
  main_url = "";
  original_url = "";
  source_url = "";
  created_on = 0;
  updated_on = none;
  archived_on = none;
}

-- WHERE id = $1
abbrev pub product_image_with_id : ℕ → Where ProductImage
product_image_with_id = is_number "id" (λ r. r.id)

-- WHERE archived_on IS NULL AND id = $1
abbrev pub live_product_image : ℕ → Where ProductImage
live_product_image id = both (not_archived (λ r. r.archived_on)) (product_image_with_id id)

unfoldable pub product_image_exists : ℕ → Query (Table ProductImage) Bool
product_image_exists id = select_exists product_image_schema ("id" ∷ []) (live_product_image id)

unfoldable pub get_product_image : ℕ → Query (Table ProductImage) ProductImage
get_product_image id =
    select_one product_image_schema no_product_image product_image_schema (live_product_image id)

-- WHERE archived_on IS NULL AND product_id = $1, of a table whose rows have no product_id.
unfoldable pub get_product_images_by_product_id :
    (List ProductImage → List ProductImage) → ℕ → Query (Table ProductImage) (List ProductImage)
get_product_images_by_product_id arrange product_id =
    select_all product_image_schema arrange product_image_schema (
      both (not_archived (λ r. r.archived_on))
        (record { names = "product_id" ∷ []; holds = λ r. true }))

abbrev pub product_image_dates : String → ProductImage → Option Time
product_image_dates c r = dates r.created_on r.updated_on r.archived_on c

module _ {Q : Type 0} (sq : Queries Q) where
  unfoldable pub build_product_image_list_retrieval_query : QueryFilter → Q
  build_product_image_list_retrieval_query qf =
      filtered sq product_image_schema "product_images" qf true

  unfoldable pub get_product_image_list :
      QueryFilter → Query (Table ProductImage) (List ProductImage)
  unfolding build_product_image_list_retrieval_query
  get_product_image_list qf t = scanned_list sq (
      sq.answer_rows product_image_schema product_image_dates
        (build_product_image_list_retrieval_query qf) t.rows)

  unfoldable pub build_product_image_count_retrieval_query : QueryFilter → Q
  build_product_image_count_retrieval_query qf =
      filtered sq ("count(id)" ∷ []) "product_images" qf false

  unfoldable pub get_product_image_count : QueryFilter → Query (Table ProductImage) ℕ
  unfolding build_product_image_count_retrieval_query
  get_product_image_count qf t =
      sq.answer_count product_image_schema product_image_dates
        (build_product_image_count_retrieval_query qf) t.rows

-- The columns that the INSERT and the UPDATE write.
abbrev pub inserted_product_image_columns : List String
inserted_product_image_columns =
    "product_root_id" ∷ "thumbnail_url" ∷ "main_url" ∷ "original_url" ∷ "source_url" ∷ []

abbrev pub updated_product_image_columns : List String
updated_product_image_columns =
    "product_root_id" ∷ "thumbnail_url" ∷ "main_url" ∷ "original_url" ∷ "source_url" ∷ "updated_on"
    ∷ []

-- The columns that the caller does not give are the serial id, NOW() and NULL.
abbrev pub inserted_product_image : Time → ProductImage → ℕ → ProductImage
inserted_product_image now new id = record new {
  id = id;
  created_on = now;
  updated_on = none;
  archived_on = none;
}

unfoldable pub create_product_image : Time → ProductImage → Command (Table ProductImage) Created
create_product_image now new =
    insert_returning product_image_schema inserted_product_image_columns ("id" ∷ "created_on" ∷ [])
      not_created (created_at now) (inserted_product_image now new)

-- SET of the columns.
abbrev pub set_product_image_columns : ProductImage → Time → ProductImage → ProductImage
set_product_image_columns updated now r = record updated {
  id = r.id;
  updated_on = some now;
  created_on = r.created_on;
  archived_on = r.archived_on;
}

unfoldable pub update_product_image : Time → ProductImage → Command (Table ProductImage) Time
update_product_image now updated =
    update_returning product_image_schema updated_product_image_columns
      (product_image_with_id updated.id) (set_product_image_columns updated now) now

abbrev pub archived_product_image : Time → ProductImage → ProductImage
archived_product_image now r = record r { archived_on = some now }

unfoldable pub delete_product_image : Time → ℕ → Command (Table ProductImage) Time
delete_product_image now id =
    update_returning product_image_schema ("archived_on" ∷ []) (product_image_with_id id)
      (archived_product_image now) now
