-- ===== src/Postgres/Database.antt =====
-- The database of storage/v1/database/postgres: its tables, and `postgres`, which implements `Storer`.
pub mod Writing
pub mod Cascade
pub mod Resets
pub mod Hooks
pub mod Logins
pub mod Sound
pub mod Steps
use dairycart.Prelude.{String, Option, none, some, List}
use dairycart.Models.Basics.{Time}
use dairycart.Models.Webhooks.{Webhook, WebhookExecutionLog}
use dairycart.Models.Discounts.{Discount}
use dairycart.Models.Users.{User, LoginAttempt, PasswordResetToken}
use dairycart.Models.Options.{ProductOption, ProductOptionValue}
use dairycart.Models.Products.{ProductImage, Product}
use dairycart.Models.Bridges.{ProductImageBridge, ProductVariantBridge}
use dairycart.Models.Roots.{ProductRoot}
use dairycart.Storage.Answers.{Answer, Query, Command, Err, failed}
use dairycart.Storage.Storer.{Storer}
use dairycart.Postgres.Statements.{Table, Queries, not_created}
use dairycart.Postgres.OptionValues.{
  get_product_option_value, create_product_option_value, update_product_option_value,
  delete_product_option_value, archive_product_option_values_with_product_root_id,
  product_option_value_for_option_id_exists, archive_product_option_values_for_option,
  get_product_option_values_for_option,
}
use dairycart.Postgres.ResetTokens.{
  create_password_reset_token, password_reset_token_for_user_id_exists,
  password_reset_token_with_token_exists,
}
use dairycart.Postgres.VariantBridges.{
  archive_product_variant_bridges_with_product_root_id, delete_product_variant_bridge_by_product_id,
  create_multiple_product_variant_bridges_for_product_id,
}
use dairycart.Postgres.Discounts.{
  get_discount, get_discount_list, get_discount_count, create_discount, update_discount,
  delete_discount,
}
use dairycart.Postgres.Users.{
  get_user, create_user, update_user, delete_user, get_user_by_username, user_with_username_exists,
}
use dairycart.Postgres.LoginAttempts.{create_login_attempt, login_attempts_have_been_exhausted}
use dairycart.Postgres.Webhooks.{
  get_webhook, get_webhook_list, get_webhook_count, create_webhook, update_webhook, delete_webhook,
  get_webhooks_by_event_type,
}
use dairycart.Postgres.ExecutionLogs.{create_webhook_execution_log}
use dairycart.Postgres.Images.{create_product_image}
use dairycart.Postgres.Products.{
  set_primary_product_image_for_product, get_product_list, get_product_count, create_product,
  no_created_product, update_product, delete_product, archive_products_with_product_root_id,
  get_product_by_sku, product_with_sku_exists, get_products_by_product_root_id,
}
use dairycart.Postgres.Roots.{
  get_product_root, get_product_root_list, get_product_root_count, product_root_exists,
  create_product_root, delete_product_root, product_root_with_sku_prefix_exists,
}
use dairycart.Postgres.Options.{
  get_product_option, get_product_option_count, product_option_exists, create_product_option,
  update_product_option, delete_product_option, archive_product_options_with_product_root_id,
  product_option_with_name_exists_for_product_root, get_product_options_by_product_root_id,
}

pub record Database : Type 0 where
  pub webhooks : Table Webhook
  pub webhook_execution_logs : Table WebhookExecutionLog
  pub discounts : Table Discount
  pub users : Table User
  pub login_attempts : Table LoginAttempt
  pub password_reset_tokens : Table PasswordResetToken
  pub product_options : Table ProductOption
  pub product_option_values : Table ProductOptionValue
  pub product_images : Table ProductImage
  pub product_image_bridges : Table ProductImageBridge
  pub product_variant_bridges : Table ProductVariantBridge
  pub product_roots : Table ProductRoot
  pub products : Table Product

-- A statement after which a constraint of the schema is violated is an error and changes nothing.
abbrev pub unless_violated :
    {A : Type 0} → Option String → A → Database → Answer A × Database → Answer A × Database
unless_violated none zero_value d r = r
unless_violated (some message) zero_value d r =
    (record { value = zero_value; err = failed message }, d)

module _ {A R : Type 0} where
  abbrev pub reading : (Database → Table R) → Query (Table R) A → Query Database A
  reading get statement d = statement (get d)

  unfoldable pub writing :
      (Database → Option String)
      → (Database → Table R)
      → (Table R → Database → Database)
      → A
      → Command (Table R) A
      → Command Database A
  writing violated get put zero_value statement d =
      let (a, t) = statement (get d) in
      let d' = put t d in unless_violated (violated d') zero_value d (a, d')

-- `violated` is the constraint of the schema that a database violates: uniqueness, checks, references,
-- ranges and enumerations. `begin_err` and `commit_err` are the errors of the connection.
module _ {Q : Type 0} (sq : Queries Q) (violated : Database → Option String)
    (begin_err commit_err : Database → Err) where
  unfoldable pub postgres : Time → Storer Database
  postgres now = record {
    get_product_option_value =
        λ id. reading (λ d. d.product_option_values) (get_product_option_value id);
    create_product_option_value = λ new.
        writing violated (λ d. d.product_option_values)
          (λ t d. record d { product_option_values = t }) not_created
          (create_product_option_value now new);
    update_product_option_value = λ updated.
        writing violated (λ d. d.product_option_values)
          (λ t d. record d { product_option_values = t }) 0
          (update_product_option_value now updated);
    delete_product_option_value = λ id.
        writing violated (λ d. d.product_option_values)
          (λ t d. record d { product_option_values = t }) 0 (delete_product_option_value now id);
    archive_product_option_values_with_product_root_id = λ id d.
        writing violated (λ d. d.product_option_values)
          (λ t d. record d { product_option_values = t }) 0
          (archive_product_option_values_with_product_root_id now d.product_options.rows id) d;
    product_option_value_for_option_id_exists = λ id value.
        reading (λ d. d.product_option_values) (product_option_value_for_option_id_exists id value);
    archive_product_option_values_for_option = λ id.
        writing violated (λ d. d.product_option_values)
          (λ t d. record d { product_option_values = t }) 0
          (archive_product_option_values_for_option now id);
    get_product_option_values_for_option = λ id.
        reading (λ d. d.product_option_values)
          (get_product_option_values_for_option (sq.arrange now) id);
    create_password_reset_token = λ new.
        writing violated (λ d. d.password_reset_tokens)
          (λ t d. record d { password_reset_tokens = t }) not_created
          (create_password_reset_token now new);
    password_reset_token_for_user_id_exists = λ id.
        reading (λ d. d.password_reset_tokens) (password_reset_token_for_user_id_exists now id);
    password_reset_token_with_token_exists = λ token.
        reading (λ d. d.password_reset_tokens) (password_reset_token_with_token_exists now token);
    archive_product_variant_bridges_with_product_root_id = λ id d.
        writing violated (λ d. d.product_variant_bridges)
          (λ t d. record d { product_variant_bridges = t }) 0
          (archive_product_variant_bridges_with_product_root_id now d.products.rows id) d;
    delete_product_variant_bridge_by_product_id = λ id.
        writing violated (λ d. d.product_variant_bridges)
          (λ t d. record d { product_variant_bridges = t }) 0
          (delete_product_variant_bridge_by_product_id now id);
    create_multiple_product_variant_bridges_for_product_id = λ id ids.
        writing violated (λ d. d.product_variant_bridges)
          (λ t d. record d { product_variant_bridges = t }) tt
          (create_multiple_product_variant_bridges_for_product_id now id ids);
    get_discount = λ id. reading (λ d. d.discounts) (get_discount id);
    get_discount_list = λ qf. reading (λ d. d.discounts) (get_discount_list sq qf);
    get_discount_count = λ qf. reading (λ d. d.discounts) (get_discount_count sq qf);
    create_discount = λ new.
        writing violated (λ d. d.discounts) (λ t d. record d { discounts = t }) not_created
          (create_discount sq.numeric now new);
    update_discount = λ updated.
        writing violated (λ d. d.discounts) (λ t d. record d { discounts = t }) 0
          (update_discount sq.numeric now updated);
    delete_discount = λ id.
        writing violated (λ d. d.discounts) (λ t d. record d { discounts = t }) 0
          (delete_discount now id);
    get_user = λ id. reading (λ d. d.users) (get_user id);
    create_user = λ new.
        writing violated (λ d. d.users) (λ t d. record d { users = t }) not_created
          (create_user now new);
    update_user = λ updated.
        writing violated (λ d. d.users) (λ t d. record d { users = t }) 0 (update_user now updated);
    delete_user = λ id.
        writing violated (λ d. d.users) (λ t d. record d { users = t }) 0 (delete_user now id);
    get_user_by_username = λ name. reading (λ d. d.users) (get_user_by_username name);
    user_with_username_exists = λ name. reading (λ d. d.users) (user_with_username_exists name);
    create_login_attempt = λ new.
        writing violated (λ d. d.login_attempts) (λ t d. record d { login_attempts = t })
          not_created (create_login_attempt now new);
    login_attempts_have_been_exhausted =
        λ name. reading (λ d. d.login_attempts) (login_attempts_have_been_exhausted now name);
    get_webhook = λ id. reading (λ d. d.webhooks) (get_webhook id);
    get_webhook_list = λ qf. reading (λ d. d.webhooks) (get_webhook_list sq qf);
    get_webhook_count = λ qf. reading (λ d. d.webhooks) (get_webhook_count sq qf);
    create_webhook = λ new.
        writing violated (λ d. d.webhooks) (λ t d. record d { webhooks = t }) not_created
          (create_webhook now new);
    update_webhook = λ updated.
        writing violated (λ d. d.webhooks) (λ t d. record d { webhooks = t }) 0
          (update_webhook now updated);
    delete_webhook = λ id.
        writing violated (λ d. d.webhooks) (λ t d. record d { webhooks = t }) 0
          (delete_webhook now id);
    get_webhooks_by_event_type = λ event_type.
        reading (λ d. d.webhooks) (get_webhooks_by_event_type (sq.arrange now) event_type);
    create_webhook_execution_log = λ new.
        writing violated (λ d. d.webhook_execution_logs)
          (λ t d. record d { webhook_execution_logs = t }) not_created
          (create_webhook_execution_log now new);
    create_product_image = λ new.
        writing violated (λ d. d.product_images) (λ t d. record d { product_images = t })
          not_created (create_product_image now new);
    set_primary_product_image_for_product = λ id image_id.
        writing violated (λ d. d.products) (λ t d. record d { products = t }) 0
          (set_primary_product_image_for_product now id image_id);
    get_product_root = λ id. reading (λ d. d.product_roots) (get_product_root id);
    get_product_root_list = λ qf. reading (λ d. d.product_roots) (get_product_root_list sq qf);
    get_product_root_count = λ qf. reading (λ d. d.product_roots) (get_product_root_count sq qf);
    product_root_exists = λ id. reading (λ d. d.product_roots) (product_root_exists id);
    create_product_root = λ new.
        writing violated (λ d. d.product_roots) (λ t d. record d { product_roots = t }) not_created
          (create_product_root sq.numeric now new);
    delete_product_root = λ id.
        writing violated (λ d. d.product_roots) (λ t d. record d { product_roots = t }) 0
          (delete_product_root now id);
    product_root_with_sku_prefix_exists =
        λ prefix. reading (λ d. d.product_roots) (product_root_with_sku_prefix_exists prefix);
    get_product_option = λ id. reading (λ d. d.product_options) (get_product_option id);
    get_product_option_count =
        λ qf. reading (λ d. d.product_options) (get_product_option_count sq qf);
    product_option_exists = λ id. reading (λ d. d.product_options) (product_option_exists id);
    create_product_option = λ new.
        writing violated (λ d. d.product_options) (λ t d. record d { product_options = t })
          not_created (create_product_option now new);
    update_product_option = λ updated.
        writing violated (λ d. d.product_options) (λ t d. record d { product_options = t }) 0
          (update_product_option now updated);
    delete_product_option = λ id.
        writing violated (λ d. d.product_options) (λ t d. record d { product_options = t }) 0
          (delete_product_option now id);
    archive_product_options_with_product_root_id = λ id.
        writing violated (λ d. d.product_options) (λ t d. record d { product_options = t }) 0
          (archive_product_options_with_product_root_id now id);
    product_option_with_name_exists_for_product_root = λ name id.
        reading (λ d. d.product_options) (product_option_with_name_exists_for_product_root name id);
    get_product_options_by_product_root_id = λ id.
        reading (λ d. d.product_options)
          (get_product_options_by_product_root_id (sq.arrange now) id);
    get_product_list = λ qf. reading (λ d. d.products) (get_product_list sq qf);
    get_product_count = λ qf. reading (λ d. d.products) (get_product_count sq qf);
    create_product = λ new.
        writing violated (λ d. d.products) (λ t d. record d { products = t }) no_created_product
          (create_product sq.numeric now new);
    update_product = λ updated.
        writing violated (λ d. d.products) (λ t d. record d { products = t }) 0
          (update_product sq.numeric now updated);
    delete_product = λ id.
        writing violated (λ d. d.products) (λ t d. record d { products = t }) 0
          (delete_product now id);
    archive_products_with_product_root_id = λ id.
        writing violated (λ d. d.products) (λ t d. record d { products = t }) 0
          (archive_products_with_product_root_id now id);
    get_product_by_sku = λ sku. reading (λ d. d.products) (get_product_by_sku sku);
    product_with_sku_exists = λ sku. reading (λ d. d.products) (product_with_sku_exists sku);
    get_products_by_product_root_id =
        λ id. reading (λ d. d.products) (get_products_by_product_root_id (sq.arrange now) id);
    begin_err = begin_err;
    commit_err = commit_err;
  }
