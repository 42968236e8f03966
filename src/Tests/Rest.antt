-- ===== src/Tests/Rest.antt =====
-- Discounts, webhooks, and the pages of a list.
use dairycart.Prelude.{false, refl, if◌then◌else◌, ◌==◌}
use dairycart.Models.Discounts.{Discount}
use dairycart.Models.Webhooks.{Webhook}
use dairycart.Http.Handler.{fresh}
use dairycart.Api.Merging.{IsUpdate}
use dairycart.Api.Discounts.{discount_update}
use dairycart.Api.Discounts.Update.{discount_update-id}
use dairycart.Http.Messages.{Body}
use dairycart.Api.Webhooks.Executor.{Network, answered, call_webhook}
use dairycart.Api.Webhooks.Executor.Logs.{IsCalled, call_webhook-logs}
use dairycart.Tests.Data.{half_price, hook, good, store}

abbrev merge_discounts : Discount → Discount → Discount
merge_discounts u v = record u { id = if u.id == 0 then v.id else u.id }

abbrev merge_hooks : Webhook → Webhook → Webhook
merge_hooks u v = record u { id = if u.id == 0 then v.id else u.id }

-- The body's id, 4, is written, though the path names the discount 31.
discount_update-id_example :
    let (flow, w) =
      discount_update store (λ x. false) merge_discounts "31" (good half_price) (fresh 5) in
    IsUpdate (λ x. x.id) store.update_discount half_price half_price half_price 5 w
discount_update-id_example =
    discount_update-id store (λ x. false) merge_discounts (record { merged_id = λ u v. refl }) "31"
      (good half_price) 5

abbrev toy_network : Network
toy_network = record {
  to_lower = λ t. t;
  xml_marshal = λ b. good "<product/>";
  json_marshal = λ b. good "{}";
  post = λ url content_type body. answered 204;
}

call_webhook-logs_example :
    IsCalled store toy_network hook
      (Body.discount half_price)
      5
      (call_webhook store toy_network hook (Body.discount half_price) 5)
call_webhook-logs_example = call_webhook-logs store toy_network hook (Body.discount half_price) 5
