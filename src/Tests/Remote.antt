-- ===== src/Tests/Remote.antt =====
-- The wait for the database, and the Go client against a small server.
use dairycart.Prelude.{
  ℕ, false, ◌≡◌, ◌==◌, ◌+◌, ◌≤◌, refl, none, some, [], ◌∷◌, if◌then◌else◌, arith,
}
use dairycart.Storage.Answers.{Err, nil, failed, Answer}
use dairycart.Http.Messages.{ErrorResponse}
use dairycart.Api.Inputs.{is_routable}
use dairycart.Api.Routes.{post, endpoint_of}
use dairycart.Postgres.Migrate.{Availability, database_is_available}
use dairycart.Postgres.Migrate.Waiting.{
  IsEnd, database_is_available-IsEnd, database_is_available-answered,
}
use dairycart.Client.{Request, Response, is_nil, error_text, pointer, make_data_request}
use dairycart.Client.Calls.{Json, fetched, delete_product}
use dairycart.Client.Paths.{
  IsRouted, endpoint_of-IsRouted, new_option_path, new_user_path, creations_unrouted,
  new_product_path,
}
use dairycart.Client.Errors.{make_data_request-silent, delete_product-typed_nil}
use dairycart.Tests.Data.{cap, cap_root, color, red, half_price, ada, good}

-- A database that answers from the third ping on.
abbrev third_ping : ℕ → Err
third_ping n = if n == 2 then nil else failed "refused"

database_is_available-IsEnd_example :
    (a : Availability) × (database_is_available third_ping ≡ some a) × IsEnd third_ping 0 a
database_is_available-IsEnd_example = database_is_available-IsEnd third_ping

database_is_available-answered_example :
    (a : Availability) × (database_is_available third_ping ≡ some a)
    × (a.err ≡ nil)
    × (a.pings ≤ 2 + 1)
database_is_available-answered_example =
    database_is_available-answered third_ping 2 (omega arith) refl

endpoint_of-IsRouted_example : IsRouted "red-cap" 17
unfolding is_routable
endpoint_of-IsRouted_example = endpoint_of-IsRouted "red-cap" 17 refl

creations_unrouted_example :
    (endpoint_of post (new_option_path 3) ≡ none) × (endpoint_of post new_user_path ≡ none)
creations_unrouted_example = creations_unrouted 3

abbrev taken : ErrorResponse
taken = record { status = 400; message = "sku is taken" }

-- Whatever is decoded, these rows come out.
abbrev json : Json
json = record {
  error_response = λ s. good taken;
  product = λ s. good cap;
  products = λ s. good (cap ∷ []);
  product_root = λ s. good cap_root;
  product_roots = λ s. good (cap_root ∷ []);
  product_option = λ s. good color;
  product_options = λ s. good (color ∷ []);
  product_option_value = λ s. good red;
  discount = λ s. good half_price;
  discounts = λ s. good (half_price ∷ []);
  user = λ s. good ada;
}

-- A server that always answers with this status.
abbrev server : ℕ → Request → Answer Response
server code r = good (record { status_code = code; body = good "{}" })

make_data_request-silent_example :
    let failure =
      (fetched (
        make_data_request json.error_response
          (server 400)
          "cookie"
          json.product
          post
          new_product_path
          (good "{}")
          pointer)).1 in
    (is_nil failure ≡ false) × (error_text failure ≡ some "")
make_data_request-silent_example =
    make_data_request-silent json (server 400) "cookie" json.product post new_product_path
      (good "{}") refl (refl, refl, refl)

delete_product-typed_nil_example :
    (is_nil (delete_product json (server 200) "cookie" "cap") ≡ false)
    × (error_text (delete_product json (server 200) "cookie" "cap") ≡ none)
delete_product-typed_nil_example =
    delete_product-typed_nil json (server 200) "cookie" "cap" 200 "{}" taken refl refl refl
