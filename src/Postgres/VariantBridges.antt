-- ===== src/Postgres/VariantBridges.antt =====
-- storage/v1/database/postgres/product_variant_bridge.go on the table product_variant_bridge.
use dairycart.Prelude.{ℕ, String, Bool, true, false, Option, none, some, List, [], ◌∷◌, ◌==◌, ◌&&◌}
use dairycart.Models.Basics.{Time, QueryFilter}
use dairycart.Models.Bridges.{ProductVariantBridge}
use dairycart.Models.Products.{Product}
use dairycart.Storage.Answers.{Answer, Query, Command, Created, nil, failed}
use dairycart.Postgres.Rows.{any}
use dairycart.Postgres.Statements.{
  Table, Where, is_number, not_archived, both, select_one, select_exists, insert_returning,
  update_returning, update_silently, created_at, not_created, Queries, dates, filtered,
  scanned_list,
}

-- CREATE TABLE product_variant_bridge
abbrev pub product_variant_bridge_schema : List String
product_variant_bridge_schema =
    "id" ∷ "product_id" ∷ "product_option_value_id" ∷ "created_on" ∷ "archived_on" ∷ []

-- &models.ProductVariantBridge{}
abbrev pub no_product_variant_bridge : ProductVariantBridge
no_product_variant_bridge = record {
  id = 0;
  product_id = 0;
  product_option_value_id = 0;
  created_on = 0;
  archived_on = none;
}

-- WHERE id = $1
abbrev pub product_variant_bridge_with_id : ℕ → Where ProductVariantBridge
product_variant_bridge_with_id = is_number "id" (λ r. r.id)

-- WHERE archived_on IS NULL AND id = $1
abbrev pub live_product_variant_bridge : ℕ → Where ProductVariantBridge
live_product_variant_bridge id =
    both (not_archived (λ r. r.archived_on)) (product_variant_bridge_with_id id)

unfoldable pub product_variant_bridge_exists : ℕ → Query (Table ProductVariantBridge) Bool
product_variant_bridge_exists id =
    select_exists product_variant_bridge_schema ("id" ∷ []) (live_product_variant_bridge id)

unfoldable pub get_product_variant_bridge :
    ℕ → Query (Table ProductVariantBridge) ProductVariantBridge
get_product_variant_bridge id =
    select_one product_variant_bridge_schema no_product_variant_bridge product_variant_bridge_schema
      (live_product_variant_bridge id)

abbrev pub product_variant_bridge_dates : String → ProductVariantBridge → Option Time
product_variant_bridge_dates c r = dates r.created_on none r.archived_on c

module _ {Q : Type 0} (sq : Queries Q) where
  unfoldable pub build_product_variant_bridge_list_retrieval_query : QueryFilter → Q
  build_product_variant_bridge_list_retrieval_query qf =
      filtered sq product_variant_bridge_schema "product_variant_bridge" qf true

  unfoldable pub get_product_variant_bridge_list :
      QueryFilter → Query (Table ProductVariantBridge) (List ProductVariantBridge)
  unfolding build_product_variant_bridge_list_retrieval_query
  get_product_variant_bridge_list qf t = scanned_list sq (
      sq.answer_rows product_variant_bridge_schema product_variant_bridge_dates
        (build_product_variant_bridge_list_retrieval_query qf) t.rows)

  unfoldable pub build_product_variant_bridge_count_retrieval_query : QueryFilter → Q
  build_product_variant_bridge_count_retrieval_query qf =
      filtered sq ("count(id)" ∷ []) "product_variant_bridge" qf false

  unfoldable pub get_product_variant_bridge_count :
      QueryFilter → Query (Table ProductVariantBridge) ℕ
  unfolding build_product_variant_bridge_count_retrieval_query
  get_product_variant_bridge_count qf t =
      sq.answer_count product_variant_bridge_schema product_variant_bridge_dates
        (build_product_variant_bridge_count_retrieval_query qf) t.rows

-- The columns that the INSERT and the UPDATE write.
abbrev pub inserted_product_variant_bridge_columns : List String
inserted_product_variant_bridge_columns = "product_id" ∷ "product_option_value_id" ∷ []

abbrev pub updated_product_variant_bridge_columns : List String
updated_product_variant_bridge_columns =
    "product_id" ∷ "product_option_value_id" ∷ "updated_on" ∷ []

-- The columns that the caller does not give are the serial id, NOW() and NULL.
abbrev pub inserted_product_variant_bridge : Time → ProductVariantBridge → ℕ → ProductVariantBridge
inserted_product_variant_bridge now new id = record new {
  id = id;
  created_on = now;
  archived_on = none;
}

unfoldable pub create_product_variant_bridge :
    Time → ProductVariantBridge → Command (Table ProductVariantBridge) Created
create_product_variant_bridge now new =
    insert_returning product_variant_bridge_schema inserted_product_variant_bridge_columns
      ("id" ∷ "created_on" ∷ []) not_created (created_at now)
      (inserted_product_variant_bridge now new)

-- SET of the columns.
abbrev pub set_product_variant_bridge_columns :
    ProductVariantBridge → Time → ProductVariantBridge → ProductVariantBridge
set_product_variant_bridge_columns updated now r = record updated {
  id = r.id;
  created_on = r.created_on;
  archived_on = r.archived_on;
}

unfoldable pub update_product_variant_bridge :
    Time → ProductVariantBridge → Command (Table ProductVariantBridge) Time
update_product_variant_bridge now updated =
    update_returning product_variant_bridge_schema updated_product_variant_bridge_columns
      (product_variant_bridge_with_id updated.id) (set_product_variant_bridge_columns updated now)
      now

abbrev pub archived_product_variant_bridge : Time → ProductVariantBridge → ProductVariantBridge
archived_product_variant_bridge now r = record r { archived_on = some now }

unfoldable pub delete_product_variant_bridge : Time → ℕ → Command (Table ProductVariantBridge) Time
delete_product_variant_bridge now id =
    update_returning product_variant_bridge_schema ("archived_on" ∷ [])
      (product_variant_bridge_with_id id) (archived_product_variant_bridge now) now

-- The VALUES of buildMultiProductVariantBridgeCreationQuery. A single pair is `(a, b)`. Of several the
-- query makes `((a, b), (a, c), ...)`, one row whose columns are records: with two of them their type is
-- not bigint, with more there are more expressions than columns. Without any it is `()`.
abbrev pub multi_bridge_rows : ℕ → List ℕ → Answer (Option ProductVariantBridge)
multi_bridge_rows product_id [] = record {
  value = none;
  err = failed "pq: syntax error at or near \")\"";
}
multi_bridge_rows product_id (v ∷ []) = record {
  value =
      some
        (record no_product_variant_bridge { product_id = product_id; product_option_value_id = v });
  err = nil;
}
multi_bridge_rows product_id (v ∷ u ∷ []) = record {
  value = none;
  err = failed "pq: column \"product_id\" is of type bigint but expression is of type record";
}
multi_bridge_rows product_id (v ∷ u ∷ w ∷ vs) = record {
  value = none;
  err = failed "pq: INSERT has more expressions than target columns";
}

abbrev pub insert_bridge :
    Time
    → Answer (Option ProductVariantBridge)
    → Table ProductVariantBridge
    → Answer (Unit {0}) × Table ProductVariantBridge
insert_bridge now a t = elim a.value [
  | none ↦ (record { value = tt; err = a.err }, t)
  | some new ↦ (record { value = tt; err = nil }, (create_product_variant_bridge now new t).1)
]

unfoldable pub create_multiple_product_variant_bridges_for_product_id :
    Time → ℕ → List ℕ → Command (Table ProductVariantBridge) (Unit {0})
unfolding create_product_variant_bridge
create_multiple_product_variant_bridges_for_product_id now product_id ids t =
    insert_bridge now (multi_bridge_rows product_id ids) t

-- WHERE product_id IN (SELECT id FROM products WHERE product_root_id = $1)
abbrev pub bridge_of_root : List Product → ℕ → Where ProductVariantBridge
bridge_of_root products root_id = record {
  names = "product_id" ∷ [];
  holds = λ r. any (λ p. p.id == r.product_id && p.product_root_id == root_id) products;
}

-- `products` are the rows of products.
unfoldable pub archive_product_variant_bridges_with_product_root_id :
    Time → List Product → ℕ → Command (Table ProductVariantBridge) Time
archive_product_variant_bridges_with_product_root_id now products root_id =
    update_silently product_variant_bridge_schema ("archived_on" ∷ [])
      (bridge_of_root products root_id) (archived_product_variant_bridge now)

-- WHERE product_id = $1 AND archived_on IS NULL
abbrev pub live_bridge_of_product : ℕ → Where ProductVariantBridge
live_bridge_of_product product_id =
    both (is_number "product_id" (λ r. r.product_id) product_id) (not_archived (λ r. r.archived_on))

unfoldable pub delete_product_variant_bridge_by_product_id :
    Time → ℕ → Command (Table ProductVariantBridge) Time
delete_product_variant_bridge_by_product_id now product_id =
    update_returning product_variant_bridge_schema ("archived_on" ∷ [])
      (live_bridge_of_product product_id) (archived_product_variant_bridge now) now
