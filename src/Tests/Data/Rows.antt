-- ===== src/Tests/Data/Rows.antt =====
-- Rows and requests at which the theorems are tried.
use dairycart.Prelude.{true, false, [], ◌∷◌, none, some}
use dairycart.Models.Basics.{QueryFilter}
use dairycart.Models.Discounts.{Discount}
use dairycart.Models.Webhooks.{Webhook}
use dairycart.Models.Users.{User, UserCreationInput, UserUpdateInput, UserLoginInput}
use dairycart.Models.Options.{ProductOption, ProductOptionValue, ProductOptionCreationInput}
use dairycart.Models.Products.{Product, ProductCreationInput, ProductImageCreationInput}
use dairycart.Models.Roots.{ProductRoot}
use dairycart.Http.Messages.{Session}

abbrev pub cap : Product
cap = record {
  id = 7;
  product_root_id = 3;
  primary_image_id = none;
  name = "cap";
  subtitle = "";
  description = "";
  option_summary = "";
  sku = "cap";
  upc = "";
  manufacturer = "";
  brand = "";
  quantity = 12;
  taxable = false;
  price = 5;
  on_sale = false;
  sale_price = 0;
  cost = 0;
  product_weight = 0;
  product_height = 0;
  product_width = 0;
  product_length = 0;
  package_weight = 0;
  package_height = 0;
  package_width = 0;
  package_length = 0;
  quantity_per_package = 0;
  available_on = 0;
  created_on = 0;
  updated_on = none;
  archived_on = none;
  images = [];
  applicable_option_values = [];
}

abbrev pub cap_input : ProductCreationInput
cap_input = record {
  name = "cap";
  subtitle = "";
  description = "";
  option_summary = "";
  sku = "cap";
  upc = "";
  manufacturer = "";
  brand = "";
  quantity = 0;
  taxable = false;
  price = 5;
  on_sale = false;
  sale_price = 0;
  cost = 0;
  product_weight = 0;
  product_height = 0;
  product_width = 0;
  product_length = 0;
  package_weight = 0;
  package_height = 0;
  package_width = 0;
  package_length = 0;
  quantity_per_package = 0;
  available_on = none;
  images = [];
  options = [];
}

abbrev pub cap_root : ProductRoot
cap_root = record {
  id = 3;
  name = "cap";
  primary_image_id = none;
  subtitle = "";
  description = "";
  sku_prefix = "cap";
  manufacturer = "";
  brand = "";
  taxable = false;
  cost = 0;
  product_weight = 0;
  product_height = 0;
  product_width = 0;
  product_length = 0;
  package_weight = 0;
  package_height = 0;
  package_width = 0;
  package_length = 0;
  quantity_per_package = 0;
  available_on = 0;
  created_on = 0;
  updated_on = none;
  archived_on = none;
  options = [];
  images = [];
  products = [];
}

abbrev pub red : ProductOptionValue
red = record {
  id = 11;
  product_option_id = 5;
  value = "Red";
  created_on = 0;
  updated_on = none;
  archived_on = none;
}

abbrev pub blue : ProductOptionValue
blue = record {
  id = 12;
  product_option_id = 5;
  value = "Blue";
  created_on = 0;
  updated_on = none;
  archived_on = none;
}

abbrev pub large : ProductOptionValue
large = record {
  id = 13;
  product_option_id = 6;
  value = "L";
  created_on = 0;
  updated_on = none;
  archived_on = none;
}

abbrev pub color : ProductOption
color = record {
  id = 5;
  name = "color";
  product_root_id = 3;
  created_on = 0;
  updated_on = none;
  archived_on = none;
  values = red ∷ blue ∷ [];
}

abbrev pub size : ProductOption
size = record {
  id = 6;
  name = "size";
  product_root_id = 3;
  created_on = 0;
  updated_on = none;
  archived_on = none;
  values = large ∷ [];
}

abbrev pub bare : ProductOption
bare = record {
  id = 8;
  name = "bare";
  product_root_id = 3;
  created_on = 0;
  updated_on = none;
  archived_on = none;
  values = [];
}

abbrev pub half_price : Discount
half_price = record {
  id = 4;
  name = "half";
  discount_type = "";
  amount = 50;
  expires_on = none;
  requires_code = false;
  code = "";
  limited_use = false;
  number_of_uses = 0;
  login_required = false;
  starts_on = 0;
  created_on = 0;
  updated_on = none;
  archived_on = none;
}

abbrev pub hook : Webhook
hook = record {
  id = 2;
  url = "http://shop";
  event_type = "product_created";
  content_type = "application/json";
  created_on = 0;
  updated_on = none;
  archived_on = none;
}

abbrev pub ada : User
ada = record {
  id = 9;
  first_name = "Ada";
  last_name = "L";
  username = "ada";
  email = "ada@shop";
  password = "#correct horse battery";
  is_admin = false;
  password_last_changed_on = none;
  created_on = 0;
  updated_on = none;
  archived_on = none;
}

abbrev pub ada_input : UserCreationInput
ada_input = record {
  first_name = "Ada";
  last_name = "L";
  username = "ada";
  email = "ada@shop";
  password = "correct horse battery";
  is_admin = false;
}

abbrev pub ada_change : UserUpdateInput
ada_change = record {
  first_name = "";
  last_name = "";
  username = "";
  email = "";
  new_password = "even longer horse battery";
  current_password = "correct horse battery";
  is_admin = false;
}

abbrev pub ada_login : UserLoginInput
ada_login = record { username = "ada"; password = "correct horse battery" }

abbrev pub color_input : ProductOptionCreationInput
color_input = record { name = "color"; values = "Red" ∷ "Blue" ∷ [] }

abbrev pub picture : ProductImageCreationInput
picture = record { is_primary = false; image_type = "base64"; image_data = "abc" }

abbrev pub second_page : QueryFilter
second_page = record {
  page = 2;
  limit = 2;
  created_after = 0;
  created_before = 0;
  updated_after = 0;
  updated_before = 0;
  include_archived = false;
}

abbrev pub admin_session : Session
admin_session = record { user_id = some 1; authenticated = some true; is_admin = some true }
