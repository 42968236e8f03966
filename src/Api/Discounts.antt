-- ===== src/Api/Discounts.antt =====
-- api/v1/discounts.go. A list handler is given the filter that it parses from its query string.
pub mod Update
use dairycart.Prelude.{String, Bool, some}
use dairycart.Models.Basics.{QueryFilter}
use dairycart.Models.Discounts.{Discount}
use dairycart.Storage.Answers.{Answer}
use dairycart.Storage.Storer.{Storer}
use dairycart.Http.Messages.{discount, discounts, list_response}
use dairycart.Http.Handler.{Handler, ◌>>=◌, ◌>>◌, query_db, exec_db, write_header, encode}
use dairycart.Api.Respond.{validate_request_input, check_body, check_internal, check_row}
use dairycart.Api.Numbers.{path_id}

module _ {D : Type 0} (s : Storer D) where
  unfoldable pub discount_retrieval : String → Handler D (Unit {0})
  discount_retrieval id_str = do
    found ← query_db (s.get_discount (path_id id_str))
    check_row found.err "discount" id_str
    encode (discount found.value)

  unfoldable pub discount_list_retrieval : QueryFilter → Handler D (Unit {0})
  discount_list_retrieval qf = do
    count ← query_db (s.get_discount_count qf)
    check_internal count.err
    found ← query_db (s.get_discount_list qf)
    check_internal found.err
    encode (discounts (list_response qf count.value found.value))

  unfoldable pub discount_deletion : String → Handler D (Unit {0})
  discount_deletion id_str = do
    found ← query_db (s.get_discount (path_id id_str))
    check_row found.err "discount" id_str
    archived ← exec_db (s.delete_discount (path_id id_str))
    check_internal archived.err
    let existing = found.value
    encode (discount (record existing { archived_on = some archived.value }))

  -- `is_zero` is that of fatih/structs, `merge` is mergo.Merge(dst, src).
  module _ (is_zero : Discount → Bool) where
    unfoldable pub discount_creation : Answer Discount → Handler D (Unit {0})
    discount_creation body = do
      check_body (validate_request_input is_zero body)
      let new = body.value
      created ← exec_db (s.create_discount new)
      check_internal created.err
      write_header 201
      encode
          (discount (record new { id = created.value.id; created_on = created.value.created_on }))

    unfoldable pub discount_update :
        (Discount → Discount → Discount) → String → Answer Discount → Handler D (Unit {0})
    discount_update merge id_str body = do
      check_body (validate_request_input is_zero body)
      existing ← query_db (s.get_discount (path_id id_str))
      check_row existing.err "discount" id_str
      let updated = merge body.value existing.value
      written ← exec_db (s.update_discount updated)
      check_internal written.err
      encode (discount (record updated { updated_on = some written.value }))
