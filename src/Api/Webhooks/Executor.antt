-- ===== src/Api/Webhooks/Executor.antt =====
-- `CallWebhook` of api/v1/webhook_executor.go.
pub mod Logs
use dairycart.Prelude.{ℕ, ◌&&◌, String, leb, str_eq, if◌then◌else◌}
use dairycart.Models.Webhooks.{Webhook, WebhookExecutionLog}
use dairycart.Storage.Answers.{is_err, Answer}
use dairycart.Storage.Storer.{Storer}
use dairycart.Http.Messages.{Body}

-- What `http.Client.Post` answers: a response with its status code, or an error.
pub data Posted : Type 0 where
  answered : ℕ → Posted
  failed_post : Posted

-- `encoding/json`, `encoding/xml`, `strings.ToLower` and the HTTP client.
pub record Network : Type 0 where
  pub to_lower : String → String
  pub xml_marshal : Body → Answer String
  pub json_marshal : Body → Answer String
  pub post : (url content_type body : String) → Posted

unfoldable pub execution_log : Webhook → ℕ → WebhookExecutionLog
execution_log wh code = record {
  id = 0;
  webhook_id = wh.id;
  status_code = code;
  succeeded = leb 200 code && leb code 300;
  executed_on = 0;
}

module _ {D : Type 0} (s : Storer D) (net : Network) where
  unfoldable pub marshal : Webhook → Body → Answer String
  marshal wh object =
      if str_eq (net.to_lower wh.content_type) "application/xml"
      then net.xml_marshal object
      else net.json_marshal object

  unfoldable pub log_post : Webhook → Posted → D → D
  log_post wh failed_post d = d
  log_post wh (answered code) d = (s.create_webhook_execution_log (execution_log wh code) d).1

  -- The database after the call.
  unfoldable pub call_webhook : Webhook → Body → D → D
  unfolding marshal log_post
  call_webhook wh object d =
      let body = marshal wh object in
      if is_err body.err then d else log_post wh (net.post wh.url wh.content_type body.value) d
