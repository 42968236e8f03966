-- ===== src/Api/Respond.antt =====
-- The responders of api/v1/helpers.go, and the error checks that the handlers make. Log lines are not
-- modelled.
use dairycart.Prelude.{ℕ, String, Bool, Option, none, some, [], ◌∷◌, str_eq, concat, if◌then◌else◌}
use dairycart.Storage.Answers.{Err, nil, failed, is_err, is_no_rows, is_failure, text, Answer}
use dairycart.Http.Messages.{error}
use dairycart.Http.Handler.{Handler, ◌>>◌, write_header, encode, rollback, when_return}

-- itemTypeToIdentifierMap
identifier_of : String → Option String
identifier_of item =
    if str_eq item "product option"
    then some "id"
    else if str_eq item "product option value"
    then some "id"
    else if str_eq item "product"
    then some "sku"
    else if str_eq item "product root"
    then some "id"
    else if str_eq item "discount"
    then some "id"
    else if str_eq item "user"
    then some "username"
    else none

or_identified_by : Option String → String
or_identified_by (some i) = i
or_identified_by none = "identified by"

unfoldable pub not_found_message : String → String → String
unfolding identifier_of or_identified_by
not_found_message item id = concat (
    "The "
    ∷ item
    ∷ " you were looking for ("
    ∷ or_identified_by (identifier_of item)
    ∷ " '"
    ∷ id
    ∷ "') does not exist"
    ∷ [])

-- validateRequestInput: `a` is what the decoder filled in and the error that it returned, `is_zero`
-- is `structs.New(output).IsZero()`.
abbrev pub validate_request_input : {A : Type 0} → (A → Bool) → Answer A → Err
validate_request_input is_zero a =
    if is_err a.err
    then a.err
    else if is_zero a.value
    then failed "Invalid input provided in request body"
    else nil

abbrev pub exhausted_message : String
exhausted_message =
    "Too many authentication attempts made. Please wait fifteen minutes before attempting to authenticate again."

module _ {D : Type 0} where
  -- res.WriteHeader(status); json.NewEncoder(res).Encode(&ErrorResponse{status, message})
  unfoldable pub respond_error : ℕ → String → Handler D (Unit {0})
  respond_error status message = do
    write_header status
    encode (error (record { status = status; message = message }))

  unfoldable pub respond_that_row_does_not_exist : String → String → Handler D (Unit {0})
  unfolding respond_error
  respond_that_row_does_not_exist item id = respond_error 404 (not_found_message item id)

  unfoldable pub notify_of_invalid_request_cookie : Handler D (Unit {0})
  unfolding respond_error
  notify_of_invalid_request_cookie = respond_error 400 "invalid request cookie"

  unfoldable pub notify_of_invalid_request_body : String → Handler D (Unit {0})
  unfolding respond_error
  notify_of_invalid_request_body message = respond_error 400 message

  unfoldable pub notify_of_internal_issue : Handler D (Unit {0})
  unfolding respond_error
  notify_of_internal_issue = respond_error 500 "Unexpected internal error occurred"

  unfoldable pub notify_of_invalid_authentication_attempt : Handler D (Unit {0})
  unfolding respond_error
  notify_of_invalid_authentication_attempt = respond_error 401 "Invalid email and/or password"

  unfoldable pub notify_of_exhausted_authentication_attempts : Handler D (Unit {0})
  unfolding respond_error
  notify_of_exhausted_authentication_attempts = respond_error 401 exhausted_message

  -- if err != nil { notifyOfInvalidRequestBody(res, err); return }
  unfoldable pub check_body : Err → Handler D (Unit {0})
  unfolding notify_of_invalid_request_body
  check_body e = when_return (is_err e) (notify_of_invalid_request_body (text e))

  -- if err != nil { notifyOfInternalIssue(res, err, ...); return }
  unfoldable pub check_internal : Err → Handler D (Unit {0})
  unfolding notify_of_internal_issue
  check_internal e = when_return (is_err e) notify_of_internal_issue

  -- if err == sql.ErrNoRows { respondThatRowDoesNotExist(...); return } else if err != nil {
  -- notifyOfInternalIssue(res, err, ...); return }
  unfoldable pub check_row : Err → String → String → Handler D (Unit {0})
  unfolding respond_that_row_does_not_exist check_internal
  check_row e item id = do
    when_return (is_no_rows e) (respond_that_row_does_not_exist item id)
    check_internal e

  -- if err != nil { tx.Rollback(); notifyOfInternalIssue(res, err, ...); return }
  unfoldable pub check_tx : Err → Handler D (Unit {0})
  unfolding notify_of_internal_issue
  check_tx e = when_return (is_err e) (rollback >> notify_of_internal_issue)

  -- if err != nil && err != sql.ErrNoRows { tx.Rollback(); notifyOfInternalIssue(...); return }
  unfoldable pub check_tx_rows : Err → Handler D (Unit {0})
  unfolding notify_of_internal_issue
  check_tx_rows e = when_return (is_failure e) (rollback >> notify_of_internal_issue)

  -- if err != nil && err != sql.ErrNoRows { notifyOfInternalIssue(...); return }
  unfoldable pub check_internal_rows : Err → Handler D (Unit {0})
  unfolding notify_of_internal_issue
  check_internal_rows e = when_return (is_failure e) notify_of_internal_issue
