-- ===== src/Api/Routes.antt =====
-- api/v1/routes.go: which handler a request reaches.
use dairycart.Prelude.{
  ℕ, String, Bool, true, false, ◌&&◌, Option, none, some, List, [], ◌∷◌, ◌++◌, str_eq, codes,
  length, leb,
}
use dairycart.Api.Inputs.{is_routable}

pub data Method : Type 0 where
  head : Method
  get : Method
  post : Method
  patch : Method
  delete : Method

abbrev pub same_method : Method → Method → Bool
same_method head head = true
same_method get get = true
same_method post post = true
same_method patch patch = true
same_method delete delete = true
same_method _ _ = false

-- A part of a route between slashes: a text, or a parameter with its pattern.
pub data Part : Type 0 where
  literal : String → Part
  numeric : Part
  url_characters : Part
  anything : Part

abbrev pub all_digits : List ℕ → Bool
all_digits [] = true
all_digits (c ∷ cs) = leb b'0' c && leb c b'9' && all_digits cs

-- `NumericPattern` on a whole path segment: [0-9]+
unfoldable pub is_numeric : String → Bool
is_numeric s = let cs = codes s in leb 1 (length cs) && all_digits cs

abbrev pub accepts : Part → String → Bool
accepts (literal t) s = str_eq t s
accepts numeric s = is_numeric s
accepts url_characters s = is_routable s
accepts anything s = true

abbrev pub fits : List Part → List String → Bool
fits [] [] = true
fits (p ∷ ps) (s ∷ ss) = accepts p s && fits ps ss
fits _ _ = false

-- One name for each `build...Handler`.
pub data Endpoint : Type 0 where
  health : Endpoint
  user_login : Endpoint
  user_logout : Endpoint
  user_creation : Endpoint
  user_update : Endpoint
  forgotten_password : Endpoint
  reset_token_validation : Endpoint
  user_deletion : Endpoint
  root_list : Endpoint
  single_root : Endpoint
  root_deletion : Endpoint
  product_list : Endpoint
  product_creation : Endpoint
  single_product : Endpoint
  product_update : Endpoint
  product_existence : Endpoint
  product_deletion : Endpoint
  option_update : Endpoint
  option_deletion : Endpoint
  option_list : Endpoint
  option_creation : Endpoint
  option_value_creation : Endpoint
  option_value_update : Endpoint
  option_value_deletion : Endpoint
  discount_retrieval : Endpoint
  discount_update : Endpoint
  discount_deletion : Endpoint
  discount_list_retrieval : Endpoint
  discount_creation : Endpoint
  webhook_list_retrieval_by_event_type : Endpoint
  webhook_list_retrieval : Endpoint
  webhook_creation : Endpoint
  webhook_update : Endpoint
  webhook_deletion : Endpoint

pub record Route : Type 0 where
  pub method : Method
  pub parts : List Part
  pub endpoint : Endpoint

abbrev pub route : Method → List Part → Endpoint → Route
route m ps e = record { method = m; parts = ps; endpoint = e }

-- Below `/v1`.
abbrev pub versioned : Method → List Part → Endpoint → Route
versioned m ps e = route m (literal "v1" ∷ ps) e

abbrev pub specific : String → Part → List Part
specific s p = literal s ∷ p ∷ []

abbrev pub plain : String → List Part
plain s = literal s ∷ []

-- SetupAPIRouter
abbrev pub routes : List Route
routes =
    route get (plain "health") health
    ∷ route post (plain "login") user_login
    ∷ route post (plain "logout") user_logout
    ∷ route post (plain "user") user_creation
    ∷ route patch (specific "user" numeric) user_update
    ∷ route post (plain "password_reset") forgotten_password
    ∷ route head (specific "password_reset" anything) reset_token_validation
    ∷ versioned delete (specific "user" numeric) user_deletion
    ∷ versioned get (plain "product_roots") root_list
    ∷ versioned get (specific "product_root" numeric) single_root
    ∷ versioned delete (specific "product_root" numeric) root_deletion
    ∷ versioned get (plain "products") product_list
    ∷ versioned post (plain "product") product_creation
    ∷ versioned get (specific "product" url_characters) single_product
    ∷ versioned patch (specific "product" url_characters) product_update
    ∷ versioned head (specific "product" url_characters) product_existence
    ∷ versioned delete (specific "product" url_characters) product_deletion
    ∷ versioned patch (specific "product_options" numeric) option_update
    ∷ versioned delete (specific "product_options" numeric) option_deletion
    ∷ versioned get (specific "product_root" numeric ++ plain "options") option_list
    ∷ versioned post (specific "product_root" numeric ++ plain "options") option_creation
    ∷ versioned post (specific "product_options" numeric ++ plain "value") option_value_creation
    ∷ versioned patch (specific "product_option_values" numeric) option_value_update
    ∷ versioned delete (specific "product_option_values" numeric) option_value_deletion
    ∷ versioned get (specific "discount" numeric) discount_retrieval
    ∷ versioned patch (specific "discount" numeric) discount_update
    ∷ versioned delete (specific "discount" numeric) discount_deletion
    ∷ versioned get (plain "discounts") discount_list_retrieval
    ∷ versioned post (plain "discount") discount_creation
    ∷ versioned get (specific "webhooks" url_characters) webhook_list_retrieval_by_event_type
    ∷ versioned get (plain "webhooks") webhook_list_retrieval
    ∷ versioned post (plain "webhook") webhook_creation
    ∷ versioned patch (specific "webhook" numeric) webhook_update
    ∷ versioned delete (specific "webhook" numeric) webhook_deletion
    ∷ []

abbrev pub or_later : Bool → Endpoint → Option Endpoint → Option Endpoint
or_later true e rest = some e
or_later false e rest = rest

abbrev pub first_route : List Route → Method → List String → Option Endpoint
first_route [] m path = none
first_route (r ∷ rs) m path =
    or_later (same_method r.method m && fits r.parts path) r.endpoint (first_route rs m path)

-- The handler of a request with these path segments; without one chi answers 404 or 405.
unfoldable pub endpoint_of : Method → List String → Option Endpoint
endpoint_of = first_route routes
