-- ===== src/Storage/Storer.antt =====
-- `Storer` of storage/v1/database/main.go: the operations that the handlers call, over any type of
-- database states, and the transactions of `database/sql`.
use dairycart.Prelude.{ℕ, String, Bool, List}
use dairycart.Models.Basics.{Time, QueryFilter}
use dairycart.Models.Discounts.{Discount}
use dairycart.Models.Webhooks.{Webhook, WebhookExecutionLog}
use dairycart.Models.Users.{User, LoginAttempt, PasswordResetToken}
use dairycart.Models.Options.{ProductOption, ProductOptionValue}
use dairycart.Models.Products.{Product, ProductImage}
use dairycart.Models.Roots.{ProductRoot}
use dairycart.Storage.Answers.{Query, Command, Created, Err}

-- A new product's id, `created_on` and `available_on`.
pub record CreatedProduct : Type 0 where
  pub id : ℕ
  pub created_on : Time
  pub available_on : Time

pub record Storer (D : Type 0) : Type 0 where
  pub get_product_option_value : ℕ → Query D ProductOptionValue
  pub create_product_option_value : ProductOptionValue → Command D Created
  pub update_product_option_value : ProductOptionValue → Command D Time
  pub delete_product_option_value : ℕ → Command D Time
  pub archive_product_option_values_with_product_root_id : ℕ → Command D Time
  pub product_option_value_for_option_id_exists : ℕ → String → Query D Bool
  pub archive_product_option_values_for_option : ℕ → Command D Time
  pub get_product_option_values_for_option : ℕ → Query D (List ProductOptionValue)
  pub create_password_reset_token : PasswordResetToken → Command D Created
  pub password_reset_token_for_user_id_exists : ℕ → Query D Bool
  pub password_reset_token_with_token_exists : String → Query D Bool
  pub archive_product_variant_bridges_with_product_root_id : ℕ → Command D Time
  pub delete_product_variant_bridge_by_product_id : ℕ → Command D Time
  pub create_multiple_product_variant_bridges_for_product_id : ℕ → List ℕ → Command D (Unit {0})
  pub get_discount : ℕ → Query D Discount
  pub get_discount_list : QueryFilter → Query D (List Discount)
  pub get_discount_count : QueryFilter → Query D ℕ
  pub create_discount : Discount → Command D Created
  pub update_discount : Discount → Command D Time
  pub delete_discount : ℕ → Command D Time
  pub get_user : ℕ → Query D User
  pub create_user : User → Command D Created
  pub update_user : User → Command D Time
  pub delete_user : ℕ → Command D Time
  pub get_user_by_username : String → Query D User
  pub user_with_username_exists : String → Query D Bool
  pub create_login_attempt : LoginAttempt → Command D Created
  pub login_attempts_have_been_exhausted : String → Query D Bool
  pub get_webhook : ℕ → Query D Webhook
  pub get_webhook_list : QueryFilter → Query D (List Webhook)
  pub get_webhook_count : QueryFilter → Query D ℕ
  pub create_webhook : Webhook → Command D Created
  pub update_webhook : Webhook → Command D Time
  pub delete_webhook : ℕ → Command D Time
  pub get_webhooks_by_event_type : String → Query D (List Webhook)
  pub create_webhook_execution_log : WebhookExecutionLog → Command D Created
  pub create_product_image : ProductImage → Command D Created
  pub set_primary_product_image_for_product : ℕ → ℕ → Command D Time
  pub get_product_root : ℕ → Query D ProductRoot
  pub get_product_root_list : QueryFilter → Query D (List ProductRoot)
  pub get_product_root_count : QueryFilter → Query D ℕ
  pub product_root_exists : ℕ → Query D Bool
  pub create_product_root : ProductRoot → Command D Created
  pub delete_product_root : ℕ → Command D Time
  pub product_root_with_sku_prefix_exists : String → Query D Bool
  pub get_product_option : ℕ → Query D ProductOption
  pub get_product_option_count : QueryFilter → Query D ℕ
  pub product_option_exists : ℕ → Query D Bool
  pub create_product_option : ProductOption → Command D Created
  pub update_product_option : ProductOption → Command D Time
  pub delete_product_option : ℕ → Command D Time
  pub archive_product_options_with_product_root_id : ℕ → Command D Time
  pub product_option_with_name_exists_for_product_root : String → ℕ → Query D Bool
  pub get_product_options_by_product_root_id : ℕ → Query D (List ProductOption)
  pub get_product_list : QueryFilter → Query D (List Product)
  pub get_product_count : QueryFilter → Query D ℕ
  pub create_product : Product → Command D CreatedProduct
  pub update_product : Product → Command D Time
  pub delete_product : ℕ → Command D Time
  pub archive_products_with_product_root_id : ℕ → Command D Time
  pub get_product_by_sku : String → Query D Product
  pub product_with_sku_exists : String → Query D Bool
  pub get_products_by_product_root_id : ℕ → Query D (List Product)
  -- `db.Begin` and `tx.Commit` may fail. A commit that fails leaves the database as it was.
  pub begin_err : D → Err
  pub commit_err : D → Err
