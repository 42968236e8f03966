-- ===== src/Client/Calls.antt =====
-- client/v1/products.go, discounts.go and users.go: one function for each call of the API.
use dairycart.Prelude.{ℕ, String, Bool, Option, none, some, List, [], if◌then◌else◌}
use dairycart.Models.Discounts.{Discount}
use dairycart.Models.Users.{User}
use dairycart.Models.Options.{ProductOption, ProductOptionValue}
use dairycart.Models.Products.{Product}
use dairycart.Models.Roots.{ProductRoot}
use dairycart.Storage.Answers.{Err, Answer, is_err}
use dairycart.Http.Messages.{ErrorResponse}
use dairycart.Api.Routes.{Method, post, patch}
use dairycart.Client.{
  Request, Response, GoError, no_error, of_client, plain, pointer, Loaded, refused, got, exists_at,
  get_into, delete_at, make_data_request, execute_request, unmarshal_body,
}
use dairycart.Client.Paths.{
  product_path, products_path, new_product_path, product_root_path, product_roots_path,
  root_options_path, new_option_path, option_path, new_value_path, value_path, discount_path,
  discounts_path, new_discount_path, user_path, new_user_path,
}

-- json.Unmarshal into the structs of models/v1; a list is the one inside its response.
pub record Json : Type 0 where
  pub error_response : String → Answer ErrorResponse
  pub product : String → Answer Product
  pub products : String → Answer (List Product)
  pub product_root : String → Answer ProductRoot
  pub product_roots : String → Answer (List ProductRoot)
  pub product_option : String → Answer ProductOption
  pub product_options : String → Answer (List ProductOption)
  pub product_option_value : String → Answer ProductOptionValue
  pub discount : String → Answer Discount
  pub discounts : String → Answer (List Discount)
  pub user : String → Answer User

-- if err != nil { return nil, err }; return &p, nil
abbrev pub fetched : {A : Type 0} → Loaded A → Option A × GoError
fetched (refused ce) = (none, of_client (some ce))
fetched (got a) = (some a, no_error)

abbrev pub listed : {A : Type 0} → Loaded (List A) → List A × GoError
listed (refused ce) = ([], of_client (some ce))
listed (got l) = (l, no_error)

-- `body` is json.Marshal of the struct that the call takes.
module _ (json : Json) (send : Request → Answer Response) (cookie : String) where
  abbrev fetch : {A : Type 0} → (String → Answer A) → List String → Option A × GoError
  fetch unmarshal path =
      fetched (get_into json.error_response send cookie unmarshal path [] pointer)

  abbrev fetch_list :
      {A : Type 0}
      → (String → Answer (List A))
      → List String
      → List (String × String)
      → List A × GoError
  fetch_list unmarshal path query =
      listed (get_into json.error_response send cookie unmarshal path query pointer)

  abbrev send_data :
      {A : Type 0} → (String → Answer A) → Method → List String → Answer String → Option A × GoError
  send_data unmarshal method path body =
      fetched (make_data_request json.error_response send cookie unmarshal method path body pointer)

  -- return dc.delete(u), a pointer as an interface
  abbrev remove : List String → GoError
  remove path = of_client (delete_at json.error_response send cookie path)

  unfoldable pub product_exists : String → Bool × Err
  product_exists sku = exists_at json.error_response send cookie (product_path sku)

  unfoldable pub get_product : String → Option Product × GoError
  get_product sku = fetch json.product (product_path sku)

  unfoldable pub get_products : List (String × String) → List Product × GoError
  get_products query_filter = fetch_list json.products products_path query_filter

  unfoldable pub create_product : Answer String → Option Product × GoError
  create_product body = send_data json.product post new_product_path body

  unfoldable pub update_product : String → Answer String → Option Product × GoError
  update_product sku body = send_data json.product patch (product_path sku) body

  unfoldable pub delete_product : String → GoError
  delete_product sku = remove (product_path sku)

  unfoldable pub get_product_root : ℕ → Option ProductRoot × GoError
  get_product_root id = fetch json.product_root (product_root_path id)

  unfoldable pub get_product_roots : List (String × String) → List ProductRoot × GoError
  get_product_roots query_filter = fetch_list json.product_roots product_roots_path query_filter

  unfoldable pub delete_product_root : ℕ → GoError
  delete_product_root id = remove (product_root_path id)

  unfoldable pub get_product_options : ℕ → List (String × String) → List ProductOption × GoError
  get_product_options id query_filter =
      fetch_list json.product_options (root_options_path id) query_filter

  unfoldable pub create_product_option : ℕ → Answer String → Option ProductOption × GoError
  create_product_option id body = send_data json.product_option post (new_option_path id) body

  unfoldable pub update_product_option : ℕ → Answer String → Option ProductOption × GoError
  update_product_option id body = send_data json.product_option patch (option_path id) body

  unfoldable pub delete_product_option : ℕ → GoError
  delete_product_option id = remove (option_path id)

  unfoldable pub create_product_option_value :
      ℕ → Answer String → Option ProductOptionValue × GoError
  create_product_option_value id body =
      send_data json.product_option_value post (new_value_path id) body

  unfoldable pub update_product_option_value :
      ℕ → Answer String → Option ProductOptionValue × GoError
  update_product_option_value id body =
      send_data json.product_option_value patch (value_path id) body

  unfoldable pub delete_product_option_value : ℕ → GoError
  delete_product_option_value id = remove (value_path id)

  unfoldable pub get_discount_by_id : ℕ → Option Discount × GoError
  get_discount_by_id id = fetch json.discount (discount_path id)

  -- The filter is not sent.
  unfoldable pub get_discounts : List (String × String) → List Discount × GoError
  get_discounts query_filter = fetch_list json.discounts discounts_path []

  unfoldable pub create_discount : Answer String → Option Discount × GoError
  create_discount body = send_data json.discount post new_discount_path body

  unfoldable pub update_discount : ℕ → Answer String → Option Discount × GoError
  update_discount id body = send_data json.discount patch (discount_path id) body

  unfoldable pub delete_discount : ℕ → GoError
  delete_discount id = remove (discount_path id)

  unfoldable pub delete_user : ℕ → GoError
  delete_user id = remove (user_path id)

  -- The error of json.Marshal is dropped.
  unfoldable pub create_user : Answer String → Option User × GoError
  unfolding execute_request unmarshal_body
  create_user body =
      let res =
        execute_request json.error_response send cookie json.user post new_user_path []
          (some body.value) in
      if is_err res.err
      then (none, plain res.err)
      else fetched (unmarshal_body json.error_response send cookie json.user res.value pointer)
