-- ===== src/Client.antt =====
-- client/v1/client.go and helpers.go: how the Go client sends its requests and reads the responses.
pub mod Calls
pub mod Paths
pub mod Errors
use dairycart.Prelude.{
  ℕ, String, Bool, true, false, ◌||◌, ◌==◌, Option, none, some, List, [], ◌∷◌, ltb, leb,
  if◌then◌else◌, concat,
}
use dairycart.Storage.Answers.{Err, nil, failed, is_err, text, Answer}
use dairycart.Http.Messages.{ErrorResponse}
use dairycart.Api.Routes.{Method, head, get, post, patch, delete}

-- `path` are the segments after the host, `query` the query parameters; what is sent is JSON.
pub record Request : Type 0 where
  pub method : Method
  pub path : List String
  pub query : List (String × String)
  pub body : Option String
  pub cookie : String

-- `body` is what io.ReadAll makes of the response body.
pub record Response : Type 0 where
  pub status_code : ℕ
  pub body : Answer String

pub record ClientError : Type 0 where
  pub err : Err
  pub from_api : Option ErrorResponse

-- What a Go function of the client returns as an `error`: nil, a `*ClientError`, whose pointer may be nil
-- inside an interface that is not, or another error.
pub data GoError : Type 0 where
  no_error : GoError
  of_client : Option ClientError → GoError
  plain : Err → GoError

-- err == nil
abbrev pub is_nil : GoError → Bool
is_nil no_error = true
is_nil _ = false

abbrev pub api_message : Option ErrorResponse → String
api_message none = ""
api_message (some e) = e.message

-- (*ClientError).Error
unfoldable pub client_error_text : ClientError → String
client_error_text ce = if is_err ce.err then text ce.err else api_message ce.from_api

-- err.Error(); a call on a nil pointer panics, which is none.
abbrev pub error_text : GoError → Option String
error_text no_error = none
error_text (of_client none) = none
error_text (of_client (some ce)) = some (client_error_text ce)
error_text (plain e) = some (text e)

-- errors.Wrap, which keeps a nil error nil.
abbrev pub wrap : Err → String → Err
wrap nil message = nil
wrap e message = failed (concat (message ∷ ": " ∷ text e ∷ []))

-- What a `dest` of unmarshalBody or an `obj` of get is.
pub data Destination : Type 0 where
  nil_value : Destination
  non_pointer : Destination
  pointer : Destination

unfoldable pub interface_arg_is_not_pointer_or_nil : Destination → Err
interface_arg_is_not_pointer_or_nil nil_value = failed "unmarshalBody cannot accept nil values"
interface_arg_is_not_pointer_or_nil non_pointer = failed "unmarshalBody can only accept pointers"
interface_arg_is_not_pointer_or_nil pointer = nil

-- A nil `*ClientError` with what was loaded, or an error.
pub data Loaded (A : Type 0) : Type 0 where
  refused : ClientError → Loaded A
  got : A → Loaded A

abbrev pub refusal : {A : Type 0} → Loaded A → Option ClientError
refusal (refused ce) = some ce
refusal (got a) = none

abbrev pub because : Err → ClientError
because e = record { err = e; from_api = none }

-- `unmarshal_error` is json.Unmarshal into an ErrorResponse, `send` is http.Client.Do, `cookie` the cookie
-- of the session.
module _ (unmarshal_error : String → Answer ErrorResponse) (send : Request → Answer Response)
    (cookie : String) where
  abbrev pub api_error : Answer ErrorResponse → ClientError
  api_error a =
      if is_err a.err then because a.err else (record { err = nil; from_api = some a.value })

  module _ {A : Type 0} (unmarshal : String → Answer A) where
    abbrev pub loaded : Answer A → Loaded A
    loaded a = if is_err a.err then refused (because a.err) else got a.value

    abbrev pub read_body : ℕ → String → Loaded A
    read_body status body =
        if ltb status 200 || leb 400 status
        then refused (api_error (unmarshal_error body))
        else loaded (unmarshal body)

    unfoldable pub unmarshal_body : Response → Destination → Loaded A
    unfolding interface_arg_is_not_pointer_or_nil
    unmarshal_body res dest =
        let e = interface_arg_is_not_pointer_or_nil dest in
        if is_err e
        then refused (because e)
        else (if is_err res.body.err
            then refused (because res.body.err)
            else read_body res.status_code res.body.value)

    unfoldable pub execute_request :
        Method → List String → List (String × String) → Option String → Answer Response
    execute_request method path query body =
        send (record { method = method; path = path; query = query; body = body; cookie = cookie })

    unfoldable pub get_into : List String → List (String × String) → Destination → Loaded A
    unfolding execute_request unmarshal_body interface_arg_is_not_pointer_or_nil
    get_into path query obj =
        let e = interface_arg_is_not_pointer_or_nil obj in
        let res = execute_request get path query none in
        if is_err e
        then refused (because (wrap e "struct to load must be a pointer"))
        else (if is_err res.err
            then refused (because (wrap res.err "encountered error executing request"))
            else unmarshal_body res.value pointer)

    -- A response that cannot be loaded: the error that is wrapped is that of the request, which is nil.
    abbrev pub loading_failed : Err → Loaded A → Loaded A
    loading_failed e (got a) = got a
    loading_failed e (refused ce) =
        refused (because (wrap e "encountered error loading response from server"))

    -- `body` is json.Marshal of what is sent.
    unfoldable pub make_data_request : Method → List String → Answer String → Destination → Loaded A
    unfolding execute_request unmarshal_body interface_arg_is_not_pointer_or_nil
    make_data_request method path body out =
        let e = interface_arg_is_not_pointer_or_nil out in
        let res = execute_request method path [] (some body.value) in
        if is_err e
        then refused (because (wrap e "struct to load must be a pointer"))
        else (if is_err body.err
            then refused (because (wrap body.err "encountered error marshaling data to JSON"))
            else (if is_err res.err
                then refused (because (wrap res.err "encountered error executing request"))
                else loading_failed res.err (unmarshal_body res.value pointer)))

  unfoldable pub exists_at : List String → Bool × Err
  exists_at path =
      let res =
        send (record { method = head; path = path; query = []; body = none; cookie = cookie }) in
      if is_err res.err
      then (false, wrap res.err "encountered error executing request")
      else (res.value.status_code == 200, nil)

  unfoldable pub delete_at : List String → Option ClientError
  unfolding unmarshal_body
  delete_at path =
      let res =
        send (record { method = delete; path = path; query = []; body = none; cookie = cookie }) in
      if is_err res.err
      then some (because res.err)
      else refusal (unmarshal_body unmarshal_error res.value pointer)
