-- ===== src/Api/Products/Handlers.antt =====
-- The handlers of api/v1/products.go, but for the creation of a product.
use dairycart.Prelude.{String, Bool, not, List, map, some, concat, [], ◌∷◌, if◌then◌else◌}
use dairycart.Models.Basics.{QueryFilter}
use dairycart.Models.Webhooks.{Webhook}
use dairycart.Models.Products.{Product}
use dairycart.Storage.Answers.{Answer, is_err}
use dairycart.Storage.Storer.{Storer}
use dairycart.Http.Messages.{Body, HookCall, product, products, list_response}
use dairycart.Http.Handler.{
  Handler, ◌>>=◌, ◌>>◌, query_db, exec_db, exec_tx, begin, commit, write_header, encode,
  when_return, start_hooks,
}
use dairycart.Api.Respond.{
  validate_request_input, respond_that_row_does_not_exist, notify_of_invalid_request_body,
  check_body, check_internal, check_row, check_tx, check_tx_rows, check_internal_rows,
}
use dairycart.Api.Inputs.{restricted_string_is_valid}

-- for _, wh := range webhooks { go webhookExecutor.CallWebhook(wh, object, db, client) }
abbrev pub hook_calls : List Webhook → Body → List HookCall
hook_calls hooks object = map (λ wh. record { hook = wh; object = object }) hooks

module _ {D : Type 0} (s : Storer D) where
  unfoldable pub product_existence : String → Handler D (Unit {0})
  product_existence sku = do
    found ← query_db (s.product_with_sku_exists sku)
    when_return (is_err found.err) (respond_that_row_does_not_exist "product" sku)
    write_header (if found.value then 200 else 404)

  unfoldable pub single_product : String → Handler D (Unit {0})
  single_product sku = do
    found ← query_db (s.get_product_by_sku sku)
    check_row found.err "product" sku
    encode (product found.value)

  unfoldable pub product_list : QueryFilter → Handler D (Unit {0})
  product_list qf = do
    count ← query_db (s.get_product_count qf)
    check_internal count.err
    found ← query_db (s.get_product_list qf)
    check_internal found.err
    encode (products (list_response qf count.value found.value))

  unfoldable pub product_deletion : String → Handler D (Unit {0})
  product_deletion sku = do
    found ← query_db (s.get_product_by_sku sku)
    check_row found.err "product" sku
    let existing = found.value
    started ← begin s
    check_internal started
    bridges ← exec_tx (s.delete_product_variant_bridge_by_product_id existing.id)
    check_tx_rows bridges.err
    archived ← exec_tx (s.delete_product existing.id)
    check_tx archived.err
    done ← commit s
    check_internal done
    let gone = record existing { archived_on = some archived.value }
    hooks ← query_db (s.get_webhooks_by_event_type "product_archived")
    check_internal_rows hooks.err
    start_hooks (hook_calls hooks.value (product gone))
    encode (product gone)

  -- `is_zero` is that of fatih/structs, `merge` is mergo.Merge(dst, src).
  unfoldable pub product_update :
      (Product → Bool)
      → (Product → Product → Product)
      → String
      → Answer Product
      → Handler D (Unit {0})
  product_update is_zero merge sku body = do
    check_body (validate_request_input is_zero body)
    found ← query_db (s.get_product_by_sku sku)
    check_row found.err "product" sku
    let updated = merge body.value found.value
    when_return (not (restricted_string_is_valid updated.sku)) (
        notify_of_invalid_request_body
          (concat ("The sku received (" ∷ updated.sku ∷ ") is invalid" ∷ [])))
    written ← exec_db (s.update_product updated)
    check_internal written.err
    let stamped = record updated { updated_on = some written.value }
    hooks ← query_db (s.get_webhooks_by_event_type "product_updated")
    check_internal_rows hooks.err
    start_hooks (hook_calls hooks.value (product stamped))
    encode (product stamped)
