-- ===== src/Client/Errors.antt =====
-- What a caller of the client learns of an error.
use dairycart.Prelude.{ℕ, String, ◌≡◌, refl, true, false, ◌||◌, none, some, List, [], ltb, leb}
use dairycart.Storage.Answers.{nil, Answer}
use dairycart.Http.Messages.{ErrorResponse}
use dairycart.Api.Routes.{Method, delete, get}
use dairycart.Client.{
  Request, Response, is_nil, error_text, client_error_text, pointer, unmarshal_body,
  execute_request, get_into, make_data_request, delete_at, interface_arg_is_not_pointer_or_nil,
}
use dairycart.Client.Calls.{Json, fetched, delete_product}
use dairycart.Client.Paths.{product_path}

-- A response with the status of an error.
abbrev pub HasErrorStatus : Answer Response → Type 0
HasErrorStatus res =
    (res.err ≡ nil)
    × (res.value.body.err ≡ nil)
    × (ltb res.value.status_code 200 || leb 400 res.value.status_code ≡ true)

-- A response of the API that is an error, with this message.
abbrev pub IsApiError : (String → Answer ErrorResponse) → Answer Response → ErrorResponse → Type 0
IsApiError unmarshal_error res e =
    (res.err ≡ nil)
    × (res.value.body.err ≡ nil)
    × (ltb res.value.status_code 200 || leb 400 res.value.status_code ≡ true)
    × (unmarshal_error res.value.body.value ≡ record { value = e; err = nil })

module _ (json : Json) (send : Request → Answer Response) (cookie : String) {A : Type 0}
    (unmarshal : String → Answer A) where
  abbrev pub get_request : List String → List (String × String) → Request
  get_request path query = record {
    method = get;
    path = path;
    query = query;
    body = none;
    cookie = cookie;
  }

  abbrev pub data_request : Method → List String → Answer String → Request
  data_request method path body = record {
    method = method;
    path = path;
    query = [];
    body = some body.value;
    cookie = cookie;
  }

  -- A call that gets an object passes the message of an error of the API on.
  pub get_into-message :
      (path : List String) (query : List (String × String)) (e : ErrorResponse)
      → IsApiError json.error_response (send (get_request path query)) e
      → error_text
          (fetched (get_into json.error_response send cookie unmarshal path query pointer)).1
        ≡ some e.message
  unfolding get_into unmarshal_body execute_request interface_arg_is_not_pointer_or_nil
      client_error_text
  get_into-message path query e (sent, read, status, decoded) =
      rw (sent, read, status, decoded) refl

  -- A call that sends an object does not: if the response has the status of an error, the caller gets an
  -- error that is not nil and whose text is empty, whatever the API says.
  pub make_data_request-silent :
      (method : Method) (path : List String) (body : Answer String)
      → body.err ≡ nil
      → HasErrorStatus (send (data_request method path body))
      → let failure =
          (fetched (
            make_data_request json.error_response send cookie unmarshal method path body
              pointer)).1 in
        (is_nil failure ≡ false) × (error_text failure ≡ some "")
  unfolding make_data_request unmarshal_body execute_request interface_arg_is_not_pointer_or_nil
      client_error_text
  make_data_request-silent method path body marshaled (sent, read, status) =
      rw (marshaled, sent, read, status) (refl, refl)

module _ (json : Json) (send : Request → Answer Response) (cookie : String) where
  abbrev pub delete_request : List String → Request
  delete_request path = record {
    method = delete;
    path = path;
    query = [];
    body = none;
    cookie = cookie;
  }

  -- A deletion of a product that the API confirms with a body that decodes returns an error that is not nil, and whose
  -- method `Error` panics.
  pub delete_product-typed_nil :
      (sku : String) (code : ℕ) (body : String) (e : ErrorResponse)
      → send (delete_request (product_path sku)) ≡ record {
        value = record { status_code = code; body = record { value = body; err = nil } };
        err = nil;
      }
      → ltb code 200 || leb 400 code ≡ false
      → json.error_response body ≡ record { value = e; err = nil }
      → (is_nil (delete_product json send cookie sku) ≡ false)
        × (error_text (delete_product json send cookie sku) ≡ none)
  unfolding delete_product delete_at unmarshal_body interface_arg_is_not_pointer_or_nil
  delete_product-typed_nil sku code body e sent status decoded =
      rw (sent, status, decoded) (refl, refl)
