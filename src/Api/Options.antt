-- ===== src/Api/Options.antt =====
-- api/v1/product_options.go, but for the variants.
pub mod Leak
pub mod Creation
pub mod Transaction
use dairycart.Prelude.{ℕ, String, Bool, not, ◌||◌, List, [], ◌∷◌, ◌++◌, some, none, concat}
use dairycart.Models.Basics.{QueryFilter}
use dairycart.Models.Options.{
  ProductOption, ProductOptionValue, ProductOptionCreationInput, ProductOptionUpdateInput,
}
use dairycart.Storage.Answers.{Answer, Created, is_no_rows}
use dairycart.Storage.Storer.{Storer}
use dairycart.Http.Messages.{product_option, product_options, list_response}
use dairycart.Http.Handler.{
  Handler, succeed, or_fail, ◌>>=◌, ◌>>◌, query_db, exec_db, exec_tx, begin, commit, write_header,
  encode, when_return,
}
use dairycart.Api.Respond.{
  validate_request_input, respond_that_row_does_not_exist, notify_of_invalid_request_body,
  check_body, check_internal, check_row, check_tx,
}
use dairycart.Api.Numbers.{path_id}

abbrev pub no_option : ProductOption
no_option = record {
  id = 0;
  name = "";
  product_root_id = 0;
  created_on = 0;
  updated_on = none;
  archived_on = none;
  values = [];
}

unfoldable pub product_option_from_update_info : ProductOptionUpdateInput → ProductOption
product_option_from_update_info input =
    let zero_option = no_option in
    record zero_option { name = input.name; product_root_id = input.product_root_id }

abbrev new_value : ℕ → String → ProductOptionValue
new_value option_id value = record {
  id = 0;
  product_option_id = option_id;
  value = value;
  created_on = 0;
  updated_on = none;
  archived_on = none;
}

-- newOptionValue.ID, newOptionValue.CreatedOn = ...
abbrev kept : ProductOptionValue → Created → ProductOptionValue
kept value c = record value { id = c.id; created_on = c.created_on }

module _ {D : Type 0} (s : Storer D) where
  -- The loop over `in.Values`.
  unfoldable pub create_values :
      ℕ → List String → List ProductOptionValue → Handler D (Answer (List ProductOptionValue))
  create_values option_id [] out = succeed out
  create_values option_id (v ∷ vs) out = do
    let value = new_value option_id v
    created ← exec_tx (s.create_product_option_value value)
    or_fail created.err [] (create_values option_id vs (out ++ kept value created.value ∷ []))

  unfoldable pub create_product_option_and_values_in_db_from_input :
      ProductOptionCreationInput → ℕ → Handler D (Answer ProductOption)
  unfolding create_values
  create_product_option_and_values_in_db_from_input input root_id = do
    let zero_option = no_option
    let new = record zero_option { name = input.name; product_root_id = root_id }
    created ← exec_tx (s.create_product_option new)
    or_fail created.err no_option do
      values ← create_values created.value.id input.values []
      or_fail values.err no_option (
          succeed (record new {
            id = created.value.id;
            created_on = created.value.created_on;
            values = values.value;
          }))

  unfoldable pub option_list : QueryFilter → String → Handler D (Unit {0})
  option_list qf root_id_str = do
    count ← query_db (s.get_product_option_count qf)
    check_internal count.err
    found ← query_db (s.get_product_options_by_product_root_id (path_id root_id_str))
    check_internal found.err
    encode (product_options (list_response qf count.value found.value))

  -- The two archiving statements and `Commit` are not followed by a rollback when they fail.
  unfoldable pub option_deletion : String → Handler D (Unit {0})
  option_deletion id_str = do
    let option_id = path_id id_str
    found ← query_db (s.get_product_option option_id)
    check_row found.err "product option" id_str
    started ← begin s
    check_internal started
    values ← exec_tx (s.archive_product_option_values_for_option option_id)
    check_internal values.err
    archived ← exec_tx (s.delete_product_option option_id)
    check_internal archived.err
    done ← commit s
    check_internal done
    let existing = found.value
    encode (product_option (record existing { archived_on = some archived.value }))

  unfoldable pub option_creation :
      (ProductOptionCreationInput → Bool)
      → String
      → Answer ProductOptionCreationInput
      → Handler D (Unit {0})
  option_creation is_zero root_id_str body = do
    let root_id = path_id root_id_str
    check_body (validate_request_input is_zero body)
    let input = body.value
    root ← query_db (s.product_root_exists root_id)
    when_return (is_no_rows root.err || not root.value)
        (respond_that_row_does_not_exist "product root" root_id_str)
    check_internal root.err
    known ← query_db (s.product_option_with_name_exists_for_product_root input.name root_id)
    when_return known.value (
        notify_of_invalid_request_body
          (concat ("product option with the name '" ∷ input.name ∷ "' already exists" ∷ [])))
    check_internal known.err
    started ← begin s
    check_internal started
    created ← create_product_option_and_values_in_db_from_input input root_id
    check_tx created.err
    done ← commit s
    check_internal done
    write_header 201
    encode (product_option created.value)

  -- `merge` is mergo.MergeWithOverwrite(dst, src).
  unfoldable pub option_update :
      (ProductOptionUpdateInput → Bool)
      → (ProductOption → ProductOption → ProductOption)
      → String
      → Answer ProductOptionUpdateInput
      → Handler D (Unit {0})
  option_update is_zero merge id_str body = do
    check_body (validate_request_input is_zero body)
    found ← query_db (s.get_product_option (path_id id_str))
    check_row found.err "product option" id_str
    let existing = merge found.value (product_option_from_update_info body.value)
    written ← exec_db (s.update_product_option existing)
    check_internal written.err
    values ← query_db (s.get_product_option_values_for_option existing.id)
    check_internal values.err
    encode (
        product_option (record existing { updated_on = some written.value; values = values.value }))
