-- ===== src/Postgres/ImageBridges.antt =====
-- storage/v1/database/postgres/product_image_bridge.go on the table product_image_bridge.
use dairycart.Prelude.{ℕ, String, Bool, true, false, Option, none, List, [], ◌∷◌}
use dairycart.Models.Basics.{Time, QueryFilter}
use dairycart.Models.Bridges.{ProductImageBridge}
use dairycart.Storage.Answers.{Query, Command, Created}
use dairycart.Postgres.Statements.{
  Table, Where, is_number, not_archived_nowhere, both, select_one, select_exists, insert_returning,
  update_returning, created_at, not_created, Queries, filtered, scanned_list,
}

-- CREATE TABLE product_image_bridge
abbrev pub product_image_bridge_schema : List String
product_image_bridge_schema = "id" ∷ "product_id" ∷ "product_image_id" ∷ []

-- &models.ProductImageBridge{}
abbrev pub no_product_image_bridge : ProductImageBridge
no_product_image_bridge = record { id = 0; product_id = 0; product_image_id = 0 }

-- WHERE id = $1
abbrev pub product_image_bridge_with_id : ℕ → Where ProductImageBridge
product_image_bridge_with_id = is_number "id" (λ r. r.id)

-- WHERE archived_on IS NULL AND id = $1
abbrev pub live_product_image_bridge : ℕ → Where ProductImageBridge
live_product_image_bridge id = both (not_archived_nowhere) (product_image_bridge_with_id id)

unfoldable pub product_image_bridge_exists : ℕ → Query (Table ProductImageBridge) Bool
product_image_bridge_exists id =
    select_exists product_image_bridge_schema ("id" ∷ []) (live_product_image_bridge id)

unfoldable pub get_product_image_bridge : ℕ → Query (Table ProductImageBridge) ProductImageBridge
get_product_image_bridge id =
    select_one product_image_bridge_schema no_product_image_bridge product_image_bridge_schema
      (live_product_image_bridge id)

abbrev pub product_image_bridge_dates : String → ProductImageBridge → Option Time
product_image_bridge_dates c r = none

module _ {Q : Type 0} (sq : Queries Q) where
  unfoldable pub build_product_image_bridge_list_retrieval_query : QueryFilter → Q
  build_product_image_bridge_list_retrieval_query qf =
      filtered sq product_image_bridge_schema "product_image_bridge" qf true

  unfoldable pub get_product_image_bridge_list :
      QueryFilter → Query (Table ProductImageBridge) (List ProductImageBridge)
  unfolding build_product_image_bridge_list_retrieval_query
  get_product_image_bridge_list qf t = scanned_list sq (
      sq.answer_rows product_image_bridge_schema product_image_bridge_dates
        (build_product_image_bridge_list_retrieval_query qf) t.rows)

  unfoldable pub build_product_image_bridge_count_retrieval_query : QueryFilter → Q
  build_product_image_bridge_count_retrieval_query qf =
      filtered sq ("count(id)" ∷ []) "product_image_bridge" qf false

  unfoldable pub get_product_image_bridge_count : QueryFilter → Query (Table ProductImageBridge) ℕ
  unfolding build_product_image_bridge_count_retrieval_query
  get_product_image_bridge_count qf t =
      sq.answer_count product_image_bridge_schema product_image_bridge_dates
        (build_product_image_bridge_count_retrieval_query qf) t.rows

-- The columns that the INSERT and the UPDATE write.
abbrev pub inserted_product_image_bridge_columns : List String
inserted_product_image_bridge_columns = "product_id" ∷ "product_image_id" ∷ []

abbrev pub updated_product_image_bridge_columns : List String
updated_product_image_bridge_columns = "product_id" ∷ "product_image_id" ∷ "updated_on" ∷ []

-- The columns that the caller does not give are the serial id, NOW() and NULL.
abbrev pub inserted_product_image_bridge : Time → ProductImageBridge → ℕ → ProductImageBridge
inserted_product_image_bridge now new id = record new { id = id }

unfoldable pub create_product_image_bridge :
    Time → ProductImageBridge → Command (Table ProductImageBridge) Created
create_product_image_bridge now new =
    insert_returning product_image_bridge_schema inserted_product_image_bridge_columns
      ("id" ∷ "created_on" ∷ []) not_created (created_at now)
      (inserted_product_image_bridge now new)

-- SET of the columns.
abbrev pub set_product_image_bridge_columns :
    ProductImageBridge → Time → ProductImageBridge → ProductImageBridge
set_product_image_bridge_columns updated now r = record updated { id = r.id }

unfoldable pub update_product_image_bridge :
    Time → ProductImageBridge → Command (Table ProductImageBridge) Time
update_product_image_bridge now updated =
    update_returning product_image_bridge_schema updated_product_image_bridge_columns
      (product_image_bridge_with_id updated.id) (set_product_image_bridge_columns updated now) now

unfoldable pub delete_product_image_bridge : Time → ℕ → Command (Table ProductImageBridge) Time
delete_product_image_bridge now id =
    update_returning product_image_bridge_schema ("archived_on" ∷ [])
      (product_image_bridge_with_id id) (λ r. r) now
