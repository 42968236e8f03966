-- ===== src/Postgres/Webhooks.antt =====
-- storage/v1/database/postgres/webhooks.go on the table webhooks.
use dairycart.Prelude.{ℕ, String, Bool, true, false, Option, none, some, List, [], ◌∷◌}
use dairycart.Models.Basics.{Time, QueryFilter}
use dairycart.Models.Webhooks.{Webhook}
use dairycart.Storage.Answers.{Query, Command, Created}
use dairycart.Postgres.Statements.{
  Table, Where, is_number, is_text, not_archived, both, select_one, select_all, select_exists,
  insert_returning, update_returning, created_at, not_created, Queries, dates, filtered,
  scanned_list,
}

-- CREATE TABLE webhooks
abbrev pub webhook_schema : List String
webhook_schema =
    "id" ∷ "url" ∷ "event_type" ∷ "content_type" ∷ "created_on" ∷ "updated_on" ∷ "archived_on" ∷ []

-- &models.Webhook{}
abbrev pub no_webhook : Webhook
no_webhook = record {
  id = 0;
  url = "";
  event_type = "";
  content_type = "";
  created_on = 0;
  updated_on = none;
  archived_on = none;
}

-- WHERE id = $1
abbrev pub webhook_with_id : ℕ → Where Webhook
webhook_with_id = is_number "id" (λ r. r.id)

-- WHERE archived_on IS NULL AND id = $1
abbrev pub live_webhook : ℕ → Where Webhook
live_webhook id = both (not_archived (λ r. r.archived_on)) (webhook_with_id id)

unfoldable pub webhook_exists : ℕ → Query (Table Webhook) Bool
webhook_exists id = select_exists webhook_schema ("id" ∷ []) (live_webhook id)

unfoldable pub get_webhook : ℕ → Query (Table Webhook) Webhook
get_webhook id = select_one webhook_schema no_webhook webhook_schema (live_webhook id)

unfoldable pub get_webhooks_by_event_type :
    (List Webhook → List Webhook) → String → Query (Table Webhook) (List Webhook)
get_webhooks_by_event_type arrange event_type =
    select_all webhook_schema arrange webhook_schema
      (is_text "event_type" (λ r. r.event_type) event_type)

abbrev pub webhook_dates : String → Webhook → Option Time
webhook_dates c r = dates r.created_on r.updated_on r.archived_on c

module _ {Q : Type 0} (sq : Queries Q) where
  unfoldable pub build_webhook_list_retrieval_query : QueryFilter → Q
  build_webhook_list_retrieval_query qf = filtered sq webhook_schema "webhooks" qf true

  unfoldable pub get_webhook_list : QueryFilter → Query (Table Webhook) (List Webhook)
  unfolding build_webhook_list_retrieval_query
  get_webhook_list qf t =
      scanned_list sq
        (sq.answer_rows webhook_schema webhook_dates (build_webhook_list_retrieval_query qf) t.rows)

  unfoldable pub build_webhook_count_retrieval_query : QueryFilter → Q
  build_webhook_count_retrieval_query qf = filtered sq ("count(id)" ∷ []) "webhooks" qf false

  unfoldable pub get_webhook_count : QueryFilter → Query (Table Webhook) ℕ
  unfolding build_webhook_count_retrieval_query
  get_webhook_count qf t =
      sq.answer_count webhook_schema webhook_dates (build_webhook_count_retrieval_query qf) t.rows

-- The columns that the INSERT and the UPDATE write.
abbrev pub inserted_webhook_columns : List String
inserted_webhook_columns = "url" ∷ "event_type" ∷ "content_type" ∷ []

abbrev pub updated_webhook_columns : List String
updated_webhook_columns = "url" ∷ "event_type" ∷ "content_type" ∷ "updated_on" ∷ []

-- The columns that the caller does not give are the serial id, NOW() and NULL.
abbrev pub inserted_webhook : Time → Webhook → ℕ → Webhook
inserted_webhook now new id = record new {
  id = id;
  created_on = now;
  updated_on = none;
  archived_on = none;
}

unfoldable pub create_webhook : Time → Webhook → Command (Table Webhook) Created
create_webhook now new =
    insert_returning webhook_schema inserted_webhook_columns ("id" ∷ "executed_on" ∷ []) not_created
      (created_at now) (inserted_webhook now new)

-- SET of the columns.
abbrev pub set_webhook_columns : Webhook → Time → Webhook → Webhook
set_webhook_columns updated now r = record updated {
  id = r.id;
  updated_on = some now;
  created_on = r.created_on;
  archived_on = r.archived_on;
}

unfoldable pub update_webhook : Time → Webhook → Command (Table Webhook) Time
update_webhook now updated =
    update_returning webhook_schema updated_webhook_columns (webhook_with_id updated.id)
      (set_webhook_columns updated now) now

abbrev pub archived_webhook : Time → Webhook → Webhook
archived_webhook now r = record r { archived_on = some now }

unfoldable pub delete_webhook : Time → ℕ → Command (Table Webhook) Time
delete_webhook now id =
    update_returning webhook_schema ("archived_on" ∷ []) (webhook_with_id id) (archived_webhook now)
      now
