-- ===== src/Api/OptionValues.antt =====
-- api/v1/product_option_values.go
pub mod Creation
use dairycart.Prelude.{String, Bool, not, ◌||◌, some}
use dairycart.Models.Options.{ProductOptionValue}
use dairycart.Storage.Answers.{Answer, is_no_rows}
use dairycart.Storage.Storer.{Storer}
use dairycart.Http.Messages.{product_option_value}
use dairycart.Http.Handler.{
  Handler, ◌>>=◌, ◌>>◌, query_db, exec_db, exec_tx, begin, commit, write_header, encode,
  when_return,
}
use dairycart.Api.Respond.{
  validate_request_input, respond_that_row_does_not_exist, notify_of_invalid_request_body,
  check_body, check_internal, check_row, check_tx,
}
use dairycart.Api.Numbers.{path_id}

module _ {D : Type 0} (s : Storer D) where
  unfoldable pub option_value_deletion : String → Handler D (Unit {0})
  option_value_deletion id_str = do
    found ← query_db (s.get_product_option_value (path_id id_str))
    check_row found.err "product option value" id_str
    archived ← exec_db (s.delete_product_option_value (path_id id_str))
    check_internal archived.err
    let existing = found.value
    encode (product_option_value (record existing { archived_on = some archived.value }))

  module _ (is_zero : ProductOptionValue → Bool) where
    unfoldable pub option_value_update : String → Answer ProductOptionValue → Handler D (Unit {0})
    option_value_update id_str body = do
      check_body (validate_request_input is_zero body)
      found ← query_db (s.get_product_option_value (path_id id_str))
      check_row found.err "product option value" id_str
      let existing = found.value
      let updated = record existing { value = body.value.value }
      written ← exec_db (s.update_product_option_value updated)
      check_internal written.err
      encode (product_option_value (record updated { updated_on = some written.value }))

    -- `duplicate` is the text of the refusal, made of the value and the option's id.
    unfoldable pub option_value_creation :
        (ProductOptionValue → String) → String → Answer ProductOptionValue → Handler D (Unit {0})
    option_value_creation duplicate id_str body = do
      let option_id = path_id id_str
      check_body (validate_request_input is_zero body)
      parent ← query_db (s.product_option_exists option_id)
      when_return (is_no_rows parent.err || not parent.value)
          (respond_that_row_does_not_exist "product option" id_str)
      check_internal parent.err
      let input = body.value
      let new = record input { product_option_id = option_id }
      known ← query_db (s.product_option_value_for_option_id_exists option_id new.value)
      when_return known.value (notify_of_invalid_request_body (duplicate new))
      check_internal known.err
      started ← begin s
      check_internal started
      created ← exec_tx (s.create_product_option_value new)
      check_tx created.err
      done ← commit s
      check_internal done
      write_header 201
      encode (
          product_option_value
            (record new { id = created.value.id; created_on = created.value.created_on }))
