-- ===== src/Tests/Data/Stores.antt =====
-- A small store at which the theorems are tried.
use dairycart.Prelude.{ℕ, ◌+◌, true, false, [], ◌∷◌}
use dairycart.Storage.Answers.{Answer, Created, nil}
use dairycart.Storage.Storer.{Storer}
use dairycart.Tests.Data.Rows.{cap, cap_root, red, blue, color, half_price, hook, ada}

abbrev pub good : {A : Type 0} → A → Answer A
good a = record { value = a; err = nil }

abbrev read : {A D : Type 0} → A → D → Answer A
read a d = good a

abbrev write : {A D : Type 0} → (D → D) → A → D → Answer A × D
write step a d = (good a, step d)

abbrev new_row : Created
new_row = record { id = 21; created_on = 100 }

-- Every statement succeeds, and `step` is what a write does to the state.
abbrev pub store_on : {D : Type 0} → (D → D) → Storer D
store_on step = record {
  get_product_option_value = λ x. read red;
  create_product_option_value = λ x. write step new_row;
  update_product_option_value = λ x. write step 200;
  delete_product_option_value = λ x. write step 200;
  archive_product_option_values_with_product_root_id = λ x. write step 200;
  product_option_value_for_option_id_exists = λ x y. read false;
  archive_product_option_values_for_option = λ x. write step 200;
  get_product_option_values_for_option = λ x. read (red ∷ blue ∷ []);
  create_password_reset_token = λ x. write step new_row;
  password_reset_token_for_user_id_exists = λ x. read false;
  password_reset_token_with_token_exists = λ x. read false;
  archive_product_variant_bridges_with_product_root_id = λ x. write step 200;
  delete_product_variant_bridge_by_product_id = λ x. write step 200;
  create_multiple_product_variant_bridges_for_product_id = λ x y. write step tt;
  get_discount = λ x. read half_price;
  get_discount_list = λ x. read (half_price ∷ []);
  get_discount_count = λ x. read 1;
  create_discount = λ x. write step new_row;
  update_discount = λ x. write step 200;
  delete_discount = λ x. write step 200;
  get_user = λ x. read ada;
  create_user = λ x. write step new_row;
  update_user = λ x. write step 200;
  delete_user = λ x. write step 200;
  get_user_by_username = λ x. read ada;
  user_with_username_exists = λ x. read false;
  create_login_attempt = λ x. write step new_row;
  login_attempts_have_been_exhausted = λ x. read false;
  get_webhook = λ x. read hook;
  get_webhook_list = λ x. read (hook ∷ []);
  get_webhook_count = λ x. read 1;
  create_webhook = λ x. write step new_row;
  update_webhook = λ x. write step 200;
  delete_webhook = λ x. write step 200;
  get_webhooks_by_event_type = λ x. read (hook ∷ []);
  create_webhook_execution_log = λ x. write step new_row;
  create_product_image = λ x. write step new_row;
  set_primary_product_image_for_product = λ x y. write step 200;
  get_product_root = λ x. read cap_root;
  get_product_root_list = λ x. read (cap_root ∷ []);
  get_product_root_count = λ x. read 1;
  product_root_exists = λ x. read true;
  create_product_root = λ x. write step new_row;
  delete_product_root = λ x. write step 200;
  product_root_with_sku_prefix_exists = λ x. read false;
  get_product_option = λ x. read color;
  get_product_option_count = λ x. read 1;
  product_option_exists = λ x. read false;
  create_product_option = λ x. write step new_row;
  update_product_option = λ x. write step 200;
  delete_product_option = λ x. write step 200;
  archive_product_options_with_product_root_id = λ x. write step 200;
  product_option_with_name_exists_for_product_root = λ x y. read false;
  get_product_options_by_product_root_id = λ x. read (color ∷ []);
  get_product_list = λ x. read (cap ∷ []);
  get_product_count = λ x. read 1;
  create_product = λ x. write step (record { id = 22; created_on = 100; available_on = 100 });
  update_product = λ x. write step 200;
  delete_product = λ x. write step 200;
  archive_products_with_product_root_id = λ x. write step 200;
  get_product_by_sku = λ x. read cap;
  product_with_sku_exists = λ x. read false;
  get_products_by_product_root_id = λ x. read (cap ∷ []);
  begin_err = λ d. nil;
  commit_err = λ d. nil;
}

-- A state is the number of writes so far.
abbrev pub store : Storer ℕ
store = store_on (λ d. d + 1)
