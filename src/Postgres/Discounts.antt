-- ===== src/Postgres/Discounts.antt =====
-- storage/v1/database/postgres/discounts.go on the table discounts.
use dairycart.Prelude.{ℕ, String, Bool, true, false, Option, none, some, List, [], ◌∷◌}
use dairycart.Models.Basics.{Float64, Time, QueryFilter}
use dairycart.Models.Discounts.{Discount}
use dairycart.Storage.Answers.{Query, Command, Created}
use dairycart.Postgres.Statements.{
  Table, Where, is_number, not_archived, both, select_one, select_exists, insert_returning,
  update_returning, created_at, not_created, Queries, dates, filtered, scanned_list,
}

-- CREATE TABLE discounts
abbrev pub discount_schema : List String
discount_schema =
    "id" ∷ "name" ∷ "discount_type" ∷ "amount" ∷ "expires_on" ∷ "requires_code" ∷ "code"
    ∷ "limited_use" ∷ "number_of_uses" ∷ "login_required" ∷ "starts_on" ∷ "created_on"
    ∷ "updated_on" ∷ "archived_on" ∷ []

-- &models.Discount{}
abbrev pub no_discount : Discount
no_discount = record {
  id = 0;
  name = "";
  discount_type = "";
  amount = 0;
  expires_on = none;
  requires_code = false;
  code = "";
  limited_use = false;
  number_of_uses = 0;
  login_required = false;
  starts_on = 0;
  created_on = 0;
  updated_on = none;
  archived_on = none;
}

-- WHERE id = $1
abbrev pub discount_with_id : ℕ → Where Discount
discount_with_id = is_number "id" (λ r. r.id)

-- WHERE archived_on IS NULL AND id = $1
abbrev pub live_discount : ℕ → Where Discount
live_discount id = both (not_archived (λ r. r.archived_on)) (discount_with_id id)

unfoldable pub discount_exists : ℕ → Query (Table Discount) Bool
discount_exists id = select_exists discount_schema ("id" ∷ []) (live_discount id)

unfoldable pub get_discount : ℕ → Query (Table Discount) Discount
get_discount id = select_one discount_schema no_discount discount_schema (live_discount id)

-- WHERE archived_on IS NULL AND sku = $1, of a table whose rows have no sku.
unfoldable pub get_discount_by_code : String → Query (Table Discount) Discount
get_discount_by_code code =
    select_one discount_schema no_discount discount_schema
      (both (not_archived (λ r. r.archived_on)) (record { names = "sku" ∷ []; holds = λ r. true }))

abbrev pub discount_dates : String → Discount → Option Time
discount_dates c r = dates r.created_on r.updated_on r.archived_on c

module _ {Q : Type 0} (sq : Queries Q) where
  unfoldable pub build_discount_list_retrieval_query : QueryFilter → Q
  build_discount_list_retrieval_query qf = filtered sq discount_schema "discounts" qf true

  unfoldable pub get_discount_list : QueryFilter → Query (Table Discount) (List Discount)
  unfolding build_discount_list_retrieval_query
  get_discount_list qf t = scanned_list sq (
      sq.answer_rows discount_schema discount_dates (build_discount_list_retrieval_query qf) t.rows)

  unfoldable pub build_discount_count_retrieval_query : QueryFilter → Q
  build_discount_count_retrieval_query qf = filtered sq ("count(id)" ∷ []) "discounts" qf false

  unfoldable pub get_discount_count : QueryFilter → Query (Table Discount) ℕ
  unfolding build_discount_count_retrieval_query
  get_discount_count qf t =
      sq.answer_count discount_schema discount_dates (build_discount_count_retrieval_query qf)
        t.rows

-- The columns that the INSERT and the UPDATE write.
abbrev pub inserted_discount_columns : List String
inserted_discount_columns =
    "name" ∷ "discount_type" ∷ "amount" ∷ "expires_on" ∷ "requires_code" ∷ "code" ∷ "limited_use"
    ∷ "number_of_uses" ∷ "login_required" ∷ "starts_on" ∷ []

abbrev pub updated_discount_columns : List String
updated_discount_columns =
    "name" ∷ "discount_type" ∷ "amount" ∷ "expires_on" ∷ "requires_code" ∷ "code" ∷ "limited_use"
    ∷ "number_of_uses" ∷ "login_required" ∷ "starts_on" ∷ "updated_on" ∷ []

-- The columns that the caller does not give are the serial id, NOW() and NULL. `numeric` is what a
-- column of type numeric(15, 2) holds of a float64.
abbrev pub inserted_discount : (Float64 → Float64) → Time → Discount → ℕ → Discount
inserted_discount numeric now new id = record new {
  amount = numeric new.amount;
  id = id;
  created_on = now;
  updated_on = none;
  archived_on = none;
}

unfoldable pub create_discount :
    (Float64 → Float64) → Time → Discount → Command (Table Discount) Created
create_discount numeric now new =
    insert_returning discount_schema inserted_discount_columns ("id" ∷ "created_on" ∷ [])
      not_created (created_at now) (inserted_discount numeric now new)

-- SET of the columns.
abbrev pub set_discount_columns : (Float64 → Float64) → Discount → Time → Discount → Discount
set_discount_columns numeric updated now r = record updated {
  amount = numeric updated.amount;
  id = r.id;
  updated_on = some now;
  created_on = r.created_on;
  archived_on = r.archived_on;
}

unfoldable pub update_discount :
    (Float64 → Float64) → Time → Discount → Command (Table Discount) Time
update_discount numeric now updated =
    update_returning discount_schema updated_discount_columns (discount_with_id updated.id)
      (set_discount_columns numeric updated now) now

abbrev pub archived_discount : Time → Discount → Discount
archived_discount now r = record r { archived_on = some now }

unfoldable pub delete_discount : Time → ℕ → Command (Table Discount) Time
delete_discount now id =
    update_returning discount_schema ("archived_on" ∷ []) (discount_with_id id)
      (archived_discount now) now
