-- ===== src/Models/Webhooks.antt =====
-- models/v1/webhooks.go and models/v1/webhook_execution_logs.go
use dairycart.Prelude.{ℕ, Bool, String}
use dairycart.Models.Basics.{Time, Dairytime}

pub record Webhook : Type 0 where
  pub id : ℕ
  pub url : String
  pub event_type : String
  pub content_type : String
  pub created_on : Time
  pub updated_on : Dairytime
  pub archived_on : Dairytime

pub record WebhookExecutionLog : Type 0 where
  pub id : ℕ
  pub webhook_id : ℕ
  pub status_code : ℕ
  pub succeeded : Bool
  pub executed_on : Time
