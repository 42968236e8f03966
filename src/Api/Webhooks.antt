-- ===== src/Api/Webhooks.antt =====
-- api/v1/webhooks.go and webhook_executor.go
pub mod Executor
pub mod Update
use dairycart.Prelude.{String, Bool, some}
use dairycart.Models.Basics.{QueryFilter}
use dairycart.Models.Webhooks.{Webhook}
use dairycart.Storage.Answers.{Answer}
use dairycart.Storage.Storer.{Storer}
use dairycart.Http.Messages.{webhook, webhook_list, webhooks, list_response}
use dairycart.Http.Handler.{Handler, ◌>>=◌, ◌>>◌, query_db, exec_db, write_header, encode}
use dairycart.Api.Respond.{validate_request_input, check_body, check_internal, check_row}
use dairycart.Api.Numbers.{path_id}

module _ {D : Type 0} (s : Storer D) where
  unfoldable pub webhook_list_retrieval : QueryFilter → Handler D (Unit {0})
  webhook_list_retrieval qf = do
    count ← query_db (s.get_webhook_count qf)
    check_internal count.err
    found ← query_db (s.get_webhook_list qf)
    check_internal found.err
    encode (webhooks (list_response qf count.value found.value))

  unfoldable pub webhook_list_retrieval_by_event_type : String → Handler D (Unit {0})
  webhook_list_retrieval_by_event_type event_type = do
    found ← query_db (s.get_webhooks_by_event_type event_type)
    check_internal found.err
    encode (webhook_list found.value)

  unfoldable pub webhook_deletion : String → Handler D (Unit {0})
  webhook_deletion id_str = do
    found ← query_db (s.get_webhook (path_id id_str))
    check_row found.err "webhook" id_str
    archived ← exec_db (s.delete_webhook (path_id id_str))
    check_internal archived.err
    let existing = found.value
    encode (webhook (record existing { archived_on = some archived.value }))

  module _ (is_zero : Webhook → Bool) where
    unfoldable pub webhook_creation : Answer Webhook → Handler D (Unit {0})
    webhook_creation body = do
      check_body (validate_request_input is_zero body)
      let new = body.value
      created ← exec_db (s.create_webhook new)
      check_internal created.err
      write_header 201
      encode (webhook (record new { id = created.value.id; created_on = created.value.created_on }))

    unfoldable pub webhook_update :
        (Webhook → Webhook → Webhook) → String → Answer Webhook → Handler D (Unit {0})
    webhook_update merge id_str body = do
      check_body (validate_request_input is_zero body)
      existing ← query_db (s.get_webhook (path_id id_str))
      check_row existing.err "webhook" id_str
      let updated = merge body.value existing.value
      written ← exec_db (s.update_webhook updated)
      check_internal written.err
      encode (webhook (record updated { updated_on = some written.value }))
