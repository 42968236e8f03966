-- ===== src/Api/Inputs.antt =====
-- How api/v1/products.go, product_roots.go and helpers.go build rows from payloads, and the check on skus.
use dairycart.Prelude.{
  ℕ, Bool, String, List, [], ◌∷◌, ◌&&◌, ◌||◌, Option, none, some, leb, ◌==◌, length, codes,
}
use dairycart.Models.Basics.{Time}
use dairycart.Models.Products.{Product, ProductCreationInput}
use dairycart.Models.Roots.{ProductRoot}

-- A field that is left at Go's zero value, or `in.AvailableOn.Time`.
abbrev or_zero_time : Option Time → Time
or_zero_time (some t) = t
or_zero_time none = 0

unfoldable pub new_product_from_creation_input : ProductCreationInput → Product
new_product_from_creation_input input = record {
  id = 0;
  product_root_id = 0;
  primary_image_id = none;
  name = input.name;
  subtitle = input.subtitle;
  description = input.description;
  option_summary = "";
  sku = input.sku;
  upc = input.upc;
  manufacturer = input.manufacturer;
  brand = input.brand;
  quantity = input.quantity;
  taxable = input.taxable;
  price = input.price;
  on_sale = input.on_sale;
  sale_price = input.sale_price;
  cost = input.cost;
  product_weight = input.product_weight;
  product_height = input.product_height;
  product_width = input.product_width;
  product_length = input.product_length;
  package_weight = input.package_weight;
  package_height = input.package_height;
  package_width = input.package_width;
  package_length = input.package_length;
  quantity_per_package = input.quantity_per_package;
  available_on = or_zero_time input.available_on;
  created_on = 0;
  updated_on = none;
  archived_on = none;
  images = [];
  applicable_option_values = [];
}

unfoldable pub create_product_root_from_product : Product → ProductRoot
create_product_root_from_product p = record {
  id = 0;
  name = p.name;
  primary_image_id = none;
  subtitle = p.subtitle;
  description = p.description;
  sku_prefix = p.sku;
  manufacturer = p.manufacturer;
  brand = p.brand;
  taxable = p.taxable;
  cost = p.cost;
  product_weight = p.product_weight;
  product_height = p.product_height;
  product_width = p.product_width;
  product_length = p.product_length;
  package_weight = p.package_weight;
  package_height = p.package_height;
  package_width = p.package_width;
  package_length = p.package_length;
  quantity_per_package = p.quantity_per_package;
  available_on = p.available_on;
  created_on = 0;
  updated_on = none;
  archived_on = none;
  options = [];
  images = [];
  products = [];
}

-- [a-zA-Z\-_]
abbrev pub is_sku_code : ℕ → Bool
is_sku_code c = leb b'a' c && leb c b'z' || leb b'A' c && leb c b'Z' || c == b'-' || c == b'_'

abbrev pub all_sku_codes : List ℕ → Bool
all_sku_codes [] = Bool.true
all_sku_codes (c ∷ cs) = is_sku_code c && all_sku_codes cs

-- ^[a-zA-Z\-_]{1,50}$
unfoldable pub restricted_string_is_valid : String → Bool
restricted_string_is_valid s =
    let cs = codes s in leb 1 (length cs) && leb (length cs) 50 && all_sku_codes cs

-- `ValidURLCharactersPattern` of routes.go, on a whole path segment: [a-zA-Z\-_]+
unfoldable pub is_routable : String → Bool
is_routable s = let cs = codes s in leb 1 (length cs) && all_sku_codes cs
