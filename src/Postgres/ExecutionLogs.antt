-- ===== src/Postgres/ExecutionLogs.antt =====
-- storage/v1/database/postgres/webhook_execution_logs.go on the table webhook_execution_logs.
use dairycart.Prelude.{ℕ, String, Bool, true, false, Option, none, List, [], ◌∷◌}
use dairycart.Models.Basics.{Time, QueryFilter}
use dairycart.Models.Webhooks.{WebhookExecutionLog}
use dairycart.Storage.Answers.{Query, Command, Created}
use dairycart.Postgres.Statements.{
  Table, Where, is_number, not_archived_nowhere, both, select_one, select_exists, insert_returning,
  update_returning, created_at, not_created, Queries, filtered, scanned_list,
}

-- CREATE TABLE webhook_execution_logs
abbrev pub webhook_execution_log_schema : List String
webhook_execution_log_schema =
    "id" ∷ "webhook_id" ∷ "status_code" ∷ "succeeded" ∷ "executed_on" ∷ []

-- &models.WebhookExecutionLog{}
abbrev pub no_webhook_execution_log : WebhookExecutionLog
no_webhook_execution_log = record {
  id = 0;
  webhook_id = 0;
  status_code = 0;
  succeeded = false;
  executed_on = 0;
}

-- WHERE id = $1
abbrev pub webhook_execution_log_with_id : ℕ → Where WebhookExecutionLog
webhook_execution_log_with_id = is_number "id" (λ r. r.id)

-- WHERE archived_on IS NULL AND id = $1
abbrev pub live_webhook_execution_log : ℕ → Where WebhookExecutionLog
live_webhook_execution_log id = both (not_archived_nowhere) (webhook_execution_log_with_id id)

unfoldable pub webhook_execution_log_exists : ℕ → Query (Table WebhookExecutionLog) Bool
webhook_execution_log_exists id =
    select_exists webhook_execution_log_schema ("id" ∷ []) (live_webhook_execution_log id)

unfoldable pub get_webhook_execution_log : ℕ → Query (Table WebhookExecutionLog) WebhookExecutionLog
get_webhook_execution_log id =
    select_one webhook_execution_log_schema no_webhook_execution_log webhook_execution_log_schema
      (live_webhook_execution_log id)

abbrev pub webhook_execution_log_dates : String → WebhookExecutionLog → Option Time
webhook_execution_log_dates c r = none

module _ {Q : Type 0} (sq : Queries Q) where
  unfoldable pub build_webhook_execution_log_list_retrieval_query : QueryFilter → Q
  build_webhook_execution_log_list_retrieval_query qf =
      filtered sq webhook_execution_log_schema "webhook_execution_logs" qf true

  unfoldable pub get_webhook_execution_log_list :
      QueryFilter → Query (Table WebhookExecutionLog) (List WebhookExecutionLog)
  unfolding build_webhook_execution_log_list_retrieval_query
  get_webhook_execution_log_list qf t = scanned_list sq (
      sq.answer_rows webhook_execution_log_schema webhook_execution_log_dates
        (build_webhook_execution_log_list_retrieval_query qf) t.rows)

  unfoldable pub build_webhook_execution_log_count_retrieval_query : QueryFilter → Q
  build_webhook_execution_log_count_retrieval_query qf =
      filtered sq ("count(id)" ∷ []) "webhook_execution_logs" qf false

  unfoldable pub get_webhook_execution_log_count : QueryFilter → Query (Table WebhookExecutionLog) ℕ
  unfolding build_webhook_execution_log_count_retrieval_query
  get_webhook_execution_log_count qf t =
      sq.answer_count webhook_execution_log_schema webhook_execution_log_dates
        (build_webhook_execution_log_count_retrieval_query qf) t.rows

-- The columns that the INSERT and the UPDATE write.
abbrev pub inserted_webhook_execution_log_columns : List String
inserted_webhook_execution_log_columns =
    "webhook_id" ∷ "status_code" ∷ "succeeded" ∷ "executed_on" ∷ []

abbrev pub updated_webhook_execution_log_columns : List String
updated_webhook_execution_log_columns =
    "webhook_id" ∷ "status_code" ∷ "succeeded" ∷ "executed_on" ∷ "updated_on" ∷ []

-- The columns that the caller does not give are the serial id, NOW() and NULL.
abbrev pub inserted_webhook_execution_log : Time → WebhookExecutionLog → ℕ → WebhookExecutionLog
inserted_webhook_execution_log now new id = record new { id = id }

unfoldable pub create_webhook_execution_log :
    Time → WebhookExecutionLog → Command (Table WebhookExecutionLog) Created
create_webhook_execution_log now new =
    insert_returning webhook_execution_log_schema inserted_webhook_execution_log_columns
      ("id" ∷ "created_on" ∷ []) not_created (created_at now)
      (inserted_webhook_execution_log now new)

-- SET of the columns.
abbrev pub set_webhook_execution_log_columns :
    WebhookExecutionLog → Time → WebhookExecutionLog → WebhookExecutionLog
set_webhook_execution_log_columns updated now r = record updated { id = r.id }

unfoldable pub update_webhook_execution_log :
    Time → WebhookExecutionLog → Command (Table WebhookExecutionLog) Time
update_webhook_execution_log now updated =
    update_returning webhook_execution_log_schema updated_webhook_execution_log_columns
      (webhook_execution_log_with_id updated.id) (set_webhook_execution_log_columns updated now) now

unfoldable pub delete_webhook_execution_log : Time → ℕ → Command (Table WebhookExecutionLog) Time
delete_webhook_execution_log now id =
    update_returning webhook_execution_log_schema ("archived_on" ∷ [])
      (webhook_execution_log_with_id id) (λ r. r) now
