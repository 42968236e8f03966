-- ===== src/Storage/Steps.antt =====
-- The writing operations of a store as steps from one state of the database to the next.
use dairycart.Prelude.{ℕ, List}
use dairycart.Models.Webhooks.{Webhook, WebhookExecutionLog}
use dairycart.Models.Discounts.{Discount}
use dairycart.Models.Users.{User, LoginAttempt, PasswordResetToken}
use dairycart.Models.Options.{ProductOption, ProductOptionValue}
use dairycart.Models.Products.{ProductImage, Product}
use dairycart.Models.Roots.{ProductRoot}
use dairycart.Storage.Storer.{Storer}

pub data Step {D : Type 0} (s : Storer D) : D → D → Type 0 where
  create_product_option_value :
      (row : ProductOptionValue) {d : D} → Step s d (s.create_product_option_value row d).1
  update_product_option_value :
      (row : ProductOptionValue) {d : D} → Step s d (s.update_product_option_value row d).1
  delete_product_option_value : (id : ℕ) {d : D} → Step s d (s.delete_product_option_value id d).1
  archive_product_option_values_with_product_root_id :
      (id : ℕ) {d : D} → Step s d (s.archive_product_option_values_with_product_root_id id d).1
  archive_product_option_values_for_option :
      (id : ℕ) {d : D} → Step s d (s.archive_product_option_values_for_option id d).1
  create_password_reset_token :
      (row : PasswordResetToken) {d : D} → Step s d (s.create_password_reset_token row d).1
  archive_product_variant_bridges_with_product_root_id :
      (id : ℕ) {d : D} → Step s d (s.archive_product_variant_bridges_with_product_root_id id d).1
  delete_product_variant_bridge_by_product_id :
      (id : ℕ) {d : D} → Step s d (s.delete_product_variant_bridge_by_product_id id d).1
  create_multiple_product_variant_bridges_for_product_id :
      (id : ℕ) (ids : List ℕ) {d : D}
      → Step s d (s.create_multiple_product_variant_bridges_for_product_id id ids d).1
  create_discount : (row : Discount) {d : D} → Step s d (s.create_discount row d).1
  update_discount : (row : Discount) {d : D} → Step s d (s.update_discount row d).1
  delete_discount : (id : ℕ) {d : D} → Step s d (s.delete_discount id d).1
  create_user : (row : User) {d : D} → Step s d (s.create_user row d).1
  update_user : (row : User) {d : D} → Step s d (s.update_user row d).1
  delete_user : (id : ℕ) {d : D} → Step s d (s.delete_user id d).1
  create_login_attempt : (row : LoginAttempt) {d : D} → Step s d (s.create_login_attempt row d).1
  create_webhook : (row : Webhook) {d : D} → Step s d (s.create_webhook row d).1
  update_webhook : (row : Webhook) {d : D} → Step s d (s.update_webhook row d).1
  delete_webhook : (id : ℕ) {d : D} → Step s d (s.delete_webhook id d).1
  create_webhook_execution_log :
      (row : WebhookExecutionLog) {d : D} → Step s d (s.create_webhook_execution_log row d).1
  create_product_image : (row : ProductImage) {d : D} → Step s d (s.create_product_image row d).1
  set_primary_product_image_for_product :
      (id : ℕ) (image_id : ℕ) {d : D}
      → Step s d (s.set_primary_product_image_for_product id image_id d).1
  create_product_root : (row : ProductRoot) {d : D} → Step s d (s.create_product_root row d).1
  delete_product_root : (id : ℕ) {d : D} → Step s d (s.delete_product_root id d).1
  create_product_option : (row : ProductOption) {d : D} → Step s d (s.create_product_option row d).1
  update_product_option : (row : ProductOption) {d : D} → Step s d (s.update_product_option row d).1
  delete_product_option : (id : ℕ) {d : D} → Step s d (s.delete_product_option id d).1
  archive_product_options_with_product_root_id :
      (id : ℕ) {d : D} → Step s d (s.archive_product_options_with_product_root_id id d).1
  create_product : (row : Product) {d : D} → Step s d (s.create_product row d).1
  update_product : (row : Product) {d : D} → Step s d (s.update_product row d).1
  delete_product : (id : ℕ) {d : D} → Step s d (s.delete_product id d).1
  archive_products_with_product_root_id :
      (id : ℕ) {d : D} → Step s d (s.archive_products_with_product_root_id id d).1
