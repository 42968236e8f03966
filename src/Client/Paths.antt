-- ===== src/Client/Paths.antt =====
-- The paths of the requests of client/v1, and the handlers of api/v1/routes.go that they reach.
use dairycart.Prelude.{ℕ, String, ◌≡◌, refl, true, none, some, List, [], ◌∷◌}
use dairycart.Api.Numbers.{format_uint}
use dairycart.Api.Numbers.Printing.{is_numeric-format_uint}
use dairycart.Api.Inputs.{is_routable}
use dairycart.Api.Routes.{Endpoint, head, get, post, patch, delete, endpoint_of}

unfoldable pub convert_id_to_string : ℕ → String
convert_id_to_string = format_uint

-- The version and the parts; joining and escaping them is left to `net/url`.
abbrev pub build_url : List String → List String
build_url parts = "v1" ∷ parts

abbrev pub product_path : String → List String
product_path sku = build_url ("product" ∷ sku ∷ [])

abbrev pub products_path : List String
products_path = build_url ("products" ∷ [])

abbrev pub new_product_path : List String
new_product_path = build_url ("product" ∷ [])

abbrev pub product_root_path : ℕ → List String
product_root_path id = build_url ("product_root" ∷ convert_id_to_string id ∷ [])

abbrev pub product_roots_path : List String
product_roots_path = build_url ("product_roots" ∷ [])

abbrev pub root_options_path : ℕ → List String
root_options_path id = build_url ("product_root" ∷ convert_id_to_string id ∷ "options" ∷ [])

abbrev pub new_option_path : ℕ → List String
new_option_path id = build_url ("product" ∷ convert_id_to_string id ∷ "options" ∷ [])

abbrev pub option_path : ℕ → List String
option_path id = build_url ("product_options" ∷ convert_id_to_string id ∷ [])

abbrev pub new_value_path : ℕ → List String
new_value_path id = build_url ("product_options" ∷ convert_id_to_string id ∷ "value" ∷ [])

abbrev pub value_path : ℕ → List String
value_path id = build_url ("product_option_values" ∷ convert_id_to_string id ∷ [])

abbrev pub discount_path : ℕ → List String
discount_path id = build_url ("discount" ∷ convert_id_to_string id ∷ [])

abbrev pub discounts_path : List String
discounts_path = build_url ("discounts" ∷ [])

abbrev pub new_discount_path : List String
new_discount_path = build_url ("discount" ∷ [])

abbrev pub user_path : ℕ → List String
user_path id = build_url ("user" ∷ convert_id_to_string id ∷ [])

abbrev pub new_user_path : List String
new_user_path = build_url ("user" ∷ [])

-- Every request but two reaches the handler that the call is meant for.
abbrev pub IsRouted : String → ℕ → Type 0
IsRouted sku id =
    (endpoint_of head (product_path sku) ≡ some Endpoint.product_existence)
    × (endpoint_of get (product_path sku) ≡ some Endpoint.single_product)
    × (endpoint_of get (products_path) ≡ some Endpoint.product_list)
    × (endpoint_of post (new_product_path) ≡ some Endpoint.product_creation)
    × (endpoint_of patch (product_path sku) ≡ some Endpoint.product_update)
    × (endpoint_of delete (product_path sku) ≡ some Endpoint.product_deletion)
    × (endpoint_of get (product_root_path id) ≡ some Endpoint.single_root)
    × (endpoint_of get (product_roots_path) ≡ some Endpoint.root_list)
    × (endpoint_of delete (product_root_path id) ≡ some Endpoint.root_deletion)
    × (endpoint_of get (root_options_path id) ≡ some Endpoint.option_list)
    × (endpoint_of patch (option_path id) ≡ some Endpoint.option_update)
    × (endpoint_of delete (option_path id) ≡ some Endpoint.option_deletion)
    × (endpoint_of post (new_value_path id) ≡ some Endpoint.option_value_creation)
    × (endpoint_of patch (value_path id) ≡ some Endpoint.option_value_update)
    × (endpoint_of delete (value_path id) ≡ some Endpoint.option_value_deletion)
    × (endpoint_of get (discount_path id) ≡ some Endpoint.discount_retrieval)
    × (endpoint_of get (discounts_path) ≡ some Endpoint.discount_list_retrieval)
    × (endpoint_of post (new_discount_path) ≡ some Endpoint.discount_creation)
    × (endpoint_of patch (discount_path id) ≡ some Endpoint.discount_update)
    × (endpoint_of delete (discount_path id) ≡ some Endpoint.discount_deletion)
    × (endpoint_of delete (user_path id) ≡ some Endpoint.user_deletion)

-- Every request of the client for a SKU that its route accepts, for an id, or for a list, but the two below, reaches the handler of the
-- API that it is meant for.
pub endpoint_of-IsRouted : (sku : String) (id : ℕ) → is_routable sku ≡ true → IsRouted sku id
unfolding endpoint_of convert_id_to_string
endpoint_of-IsRouted sku id h =
    rw (h, is_numeric-format_uint id)
      (
        refl, refl, refl, refl, refl, refl, refl, refl, refl, refl, refl, refl, refl, refl, refl,
        refl, refl, refl, refl, refl, refl,
      )

-- The requests that create an option of a product root and a user reach no handler, whatever the id is.
pub creations_unrouted :
    (id : ℕ)
    → (endpoint_of post (new_option_path id) ≡ none) × (endpoint_of post new_user_path ≡ none)
unfolding endpoint_of
creations_unrouted id = (refl, refl)
