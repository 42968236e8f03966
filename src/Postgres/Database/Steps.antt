-- ===== src/Postgres/Database/Steps.antt =====
-- What every sequence of statements keeps of the database.
use dairycart.Prelude.{ℕ, refl, String, Option, List, [], ◌∷◌, arith}
use dairycart.Models.Basics.{Time}
use dairycart.Models.Bridges.{ProductVariantBridge}
use dairycart.Storage.Answers.{Err}
use dairycart.Storage.Steps.{Step}
use dairycart.Postgres.Laws.{append-IsAscending, map_where-IsAscending}
use dairycart.Postgres.Refinement.{IsSound}
use dairycart.Postgres.Statements.{Queries, Table}
use dairycart.Postgres.Database.Sound.{
  IsSoundDatabase, with_webhooks, with_discounts, with_users, with_login_attempts,
  with_password_reset_tokens, with_product_options, with_product_option_values, with_product_images,
  with_product_variant_bridges, with_product_roots, with_products, IsSound-webhooks,
  IsSound-discounts, IsSound-users, IsSound-login_attempts, IsSound-password_reset_tokens,
  IsSound-product_options, IsSound-product_option_values, IsSound-product_images,
  IsSound-product_variant_bridges, IsSound-product_roots, IsSound-products,
}
use dairycart.Postgres.OptionValues.{
  create_product_option_value, update_product_option_value, delete_product_option_value,
  archive_product_option_values_with_product_root_id, archive_product_option_values_for_option,
}
use dairycart.Postgres.ResetTokens.{create_password_reset_token}
use dairycart.Postgres.VariantBridges.{
  archive_product_variant_bridges_with_product_root_id, delete_product_variant_bridge_by_product_id,
  create_multiple_product_variant_bridges_for_product_id,
}
use dairycart.Postgres.Discounts.{create_discount, update_discount, delete_discount}
use dairycart.Postgres.Users.{create_user, update_user, delete_user}
use dairycart.Postgres.LoginAttempts.{create_login_attempt}
use dairycart.Postgres.Webhooks.{create_webhook, update_webhook, delete_webhook}
use dairycart.Postgres.ExecutionLogs.{create_webhook_execution_log}
use dairycart.Postgres.Images.{create_product_image}
use dairycart.Postgres.Products.{
  set_primary_product_image_for_product, create_product, update_product, delete_product,
  archive_products_with_product_root_id,
}
use dairycart.Postgres.Roots.{create_product_root, delete_product_root}
use dairycart.Postgres.Options.{
  create_product_option, update_product_option, delete_product_option,
  archive_product_options_with_product_root_id,
}
use dairycart.Postgres.Database.{Database, postgres}
use dairycart.Postgres.Database.Writing.{writing-keeps}

abbrev no_rows_yet : {R : Type 0} → Table R
no_rows_yet = record { rows = []; next_id = 1 }

-- The database after the migrations.
abbrev pub migrated : Database
migrated = record {
  webhooks = no_rows_yet;
  webhook_execution_logs = no_rows_yet;
  discounts = no_rows_yet;
  users = no_rows_yet;
  login_attempts = no_rows_yet;
  password_reset_tokens = no_rows_yet;
  product_options = no_rows_yet;
  product_option_values = no_rows_yet;
  product_images = no_rows_yet;
  product_image_bridges = no_rows_yet;
  product_variant_bridges = no_rows_yet;
  product_roots = no_rows_yet;
  products = no_rows_yet;
}

bridges-IsSound :
    (now : Time) (id : ℕ) (ids : List ℕ) (t : Table ProductVariantBridge)
    → IsSound (λ r. r.id) t
    → IsSound (λ r. r.id) (create_multiple_product_variant_bridges_for_product_id now id ids t).1
unfolding create_multiple_product_variant_bridges_for_product_id
bridges-IsSound now id [] t h = h
bridges-IsSound now id (v ∷ []) t h = append-IsAscending (λ r. r.id) 0 t.rows _ _ h refl
bridges-IsSound now id (v ∷ u ∷ []) t h = h
bridges-IsSound now id (v ∷ u ∷ w ∷ ids) t h = h

module _ {Q : Type 0} (sq : Queries Q) (violated : Database → Option String)
    (begin_err commit_err : Database → Err) where
  step-IsSoundDatabase :
      (now : Time) {d d' : Database}
      → Step (postgres sq violated begin_err commit_err now) d d'
      → IsSoundDatabase d
      → IsSoundDatabase d'
  unfolding postgres create_product_option_value update_product_option_value
      delete_product_option_value archive_product_option_values_with_product_root_id
      archive_product_option_values_for_option create_password_reset_token
      archive_product_variant_bridges_with_product_root_id
      delete_product_variant_bridge_by_product_id create_discount update_discount delete_discount
      create_user update_user delete_user create_login_attempt create_webhook update_webhook
      delete_webhook create_webhook_execution_log create_product_image
      set_primary_product_image_for_product create_product_root delete_product_root
      create_product_option update_product_option delete_product_option
      archive_product_options_with_product_root_id create_product update_product delete_product
      archive_products_with_product_root_id
  step-IsSoundDatabase now {d} (Step.create_product_option_value x) h =
      writing-keeps violated (λ d. d.product_option_values)
        (λ t d. record d { product_option_values = t }) _ _ d IsSoundDatabase h
        (with_product_option_values d (create_product_option_value now x d.product_option_values).1
          (append-IsAscending (λ r. r.id) 0 d.product_option_values.rows _ _
            (IsSound-product_option_values d h) refl)
          h)
  step-IsSoundDatabase now {d} (Step.update_product_option_value x) h =
      writing-keeps violated (λ d. d.product_option_values)
        (λ t d. record d { product_option_values = t }) _ _ d IsSoundDatabase h
        (with_product_option_values d (update_product_option_value now x d.product_option_values).1
          (map_where-IsAscending (λ r. r.id) _ _ (λ r. refl) 0 d.product_option_values.rows _
            (IsSound-product_option_values d h))
          h)
  step-IsSoundDatabase now {d} (Step.delete_product_option_value x) h =
      writing-keeps violated (λ d. d.product_option_values)
        (λ t d. record d { product_option_values = t }) _ _ d IsSoundDatabase h
        (with_product_option_values d (delete_product_option_value now x d.product_option_values).1
          (map_where-IsAscending (λ r. r.id) _ _ (λ r. refl) 0 d.product_option_values.rows _
            (IsSound-product_option_values d h))
          h)
  step-IsSoundDatabase now {d} (Step.archive_product_option_values_with_product_root_id x) h =
      writing-keeps violated (λ d. d.product_option_values)
        (λ t d. record d { product_option_values = t }) _ _ d IsSoundDatabase h
        (with_product_option_values d
          (archive_product_option_values_with_product_root_id now d.product_options.rows x
            d.product_option_values).1
          (map_where-IsAscending (λ r. r.id) _ _ (λ r. refl) 0 d.product_option_values.rows _
            (IsSound-product_option_values d h))
          h)
  step-IsSoundDatabase now {d} (Step.archive_product_option_values_for_option x) h =
      writing-keeps violated (λ d. d.product_option_values)
        (λ t d. record d { product_option_values = t }) _ _ d IsSoundDatabase h
        (with_product_option_values d
          (archive_product_option_values_for_option now x d.product_option_values).1
          (map_where-IsAscending (λ r. r.id) _ _ (λ r. refl) 0 d.product_option_values.rows _
            (IsSound-product_option_values d h))
          h)
  step-IsSoundDatabase now {d} (Step.create_password_reset_token x) h =
      writing-keeps violated (λ d. d.password_reset_tokens)
        (λ t d. record d { password_reset_tokens = t }) _ _ d IsSoundDatabase h
        (with_password_reset_tokens d (create_password_reset_token now x d.password_reset_tokens).1
          (append-IsAscending (λ r. r.id) 0 d.password_reset_tokens.rows _ _
            (IsSound-password_reset_tokens d h) refl)
          h)
  step-IsSoundDatabase now {d} (Step.archive_product_variant_bridges_with_product_root_id x) h =
      writing-keeps violated (λ d. d.product_variant_bridges)
        (λ t d. record d { product_variant_bridges = t }) _ _ d IsSoundDatabase h
        (with_product_variant_bridges d
          (archive_product_variant_bridges_with_product_root_id now d.products.rows x
            d.product_variant_bridges).1
          (map_where-IsAscending (λ r. r.id) _ _ (λ r. refl) 0 d.product_variant_bridges.rows _
            (IsSound-product_variant_bridges d h))
          h)
  step-IsSoundDatabase now {d} (Step.delete_product_variant_bridge_by_product_id x) h =
      writing-keeps violated (λ d. d.product_variant_bridges)
        (λ t d. record d { product_variant_bridges = t }) _ _ d IsSoundDatabase h
        (with_product_variant_bridges d
          (delete_product_variant_bridge_by_product_id now x d.product_variant_bridges).1
          (map_where-IsAscending (λ r. r.id) _ _ (λ r. refl) 0 d.product_variant_bridges.rows _
            (IsSound-product_variant_bridges d h))
          h)
  step-IsSoundDatabase now {d} (Step.create_multiple_product_variant_bridges_for_product_id x y) h =
      writing-keeps violated (λ d. d.product_variant_bridges)
        (λ t d. record d { product_variant_bridges = t }) _ _ d IsSoundDatabase h
        (with_product_variant_bridges d
          (create_multiple_product_variant_bridges_for_product_id now x y
            d.product_variant_bridges).1
          (bridges-IsSound now x y d.product_variant_bridges (IsSound-product_variant_bridges d h))
          h)
  step-IsSoundDatabase now {d} (Step.create_discount x) h =
      writing-keeps violated (λ d. d.discounts) (λ t d. record d { discounts = t }) _ _ d
        IsSoundDatabase h
        (with_discounts d (create_discount sq.numeric now x d.discounts).1
          (append-IsAscending (λ r. r.id) 0 d.discounts.rows _ _ (IsSound-discounts d h) refl) h)
  step-IsSoundDatabase now {d} (Step.update_discount x) h =
      writing-keeps violated (λ d. d.discounts) (λ t d. record d { discounts = t }) _ _ d
        IsSoundDatabase h
        (with_discounts d (update_discount sq.numeric now x d.discounts).1
          (map_where-IsAscending (λ r. r.id) _ _ (λ r. refl) 0 d.discounts.rows _
            (IsSound-discounts d h))
          h)
  step-IsSoundDatabase now {d} (Step.delete_discount x) h =
      writing-keeps violated (λ d. d.discounts) (λ t d. record d { discounts = t }) _ _ d
        IsSoundDatabase h
        (with_discounts d (delete_discount now x d.discounts).1
          (map_where-IsAscending (λ r. r.id) _ _ (λ r. refl) 0 d.discounts.rows _
            (IsSound-discounts d h))
          h)
  step-IsSoundDatabase now {d} (Step.create_user x) h =
      writing-keeps violated (λ d. d.users) (λ t d. record d { users = t }) _ _ d IsSoundDatabase h
        (with_users d (create_user now x d.users).1
          (append-IsAscending (λ r. r.id) 0 d.users.rows _ _ (IsSound-users d h) refl) h)
  step-IsSoundDatabase now {d} (Step.update_user x) h =
      writing-keeps violated (λ d. d.users) (λ t d. record d { users = t }) _ _ d IsSoundDatabase h
        (with_users d (update_user now x d.users).1
          (map_where-IsAscending (λ r. r.id) _ _ (λ r. refl) 0 d.users.rows _ (IsSound-users d h))
          h)
  step-IsSoundDatabase now {d} (Step.delete_user x) h =
      writing-keeps violated (λ d. d.users) (λ t d. record d { users = t }) _ _ d IsSoundDatabase h
        (with_users d (delete_user now x d.users).1
          (map_where-IsAscending (λ r. r.id) _ _ (λ r. refl) 0 d.users.rows _ (IsSound-users d h))
          h)
  step-IsSoundDatabase now {d} (Step.create_login_attempt x) h =
      writing-keeps violated (λ d. d.login_attempts) (λ t d. record d { login_attempts = t }) _ _ d
        IsSoundDatabase h
        (with_login_attempts d (create_login_attempt now x d.login_attempts).1
          (append-IsAscending (λ r. r.id) 0 d.login_attempts.rows _ _ (IsSound-login_attempts d h)
            refl)
          h)
  step-IsSoundDatabase now {d} (Step.create_webhook x) h =
      writing-keeps violated (λ d. d.webhooks) (λ t d. record d { webhooks = t }) _ _ d
        IsSoundDatabase h h
  step-IsSoundDatabase now {d} (Step.update_webhook x) h =
      writing-keeps violated (λ d. d.webhooks) (λ t d. record d { webhooks = t }) _ _ d
        IsSoundDatabase h
        (with_webhooks d (update_webhook now x d.webhooks).1
          (map_where-IsAscending (λ r. r.id) _ _ (λ r. refl) 0 d.webhooks.rows _
            (IsSound-webhooks d h))
          h)
  step-IsSoundDatabase now {d} (Step.delete_webhook x) h =
      writing-keeps violated (λ d. d.webhooks) (λ t d. record d { webhooks = t }) _ _ d
        IsSoundDatabase h
        (with_webhooks d (delete_webhook now x d.webhooks).1
          (map_where-IsAscending (λ r. r.id) _ _ (λ r. refl) 0 d.webhooks.rows _
            (IsSound-webhooks d h))
          h)
  step-IsSoundDatabase now {d} (Step.create_webhook_execution_log x) h =
      writing-keeps violated (λ d. d.webhook_execution_logs)
        (λ t d. record d { webhook_execution_logs = t }) _ _ d IsSoundDatabase h h
  step-IsSoundDatabase now {d} (Step.create_product_image x) h =
      writing-keeps violated (λ d. d.product_images) (λ t d. record d { product_images = t }) _ _ d
        IsSoundDatabase h
        (with_product_images d (create_product_image now x d.product_images).1
          (append-IsAscending (λ r. r.id) 0 d.product_images.rows _ _ (IsSound-product_images d h)
            refl)
          h)
  step-IsSoundDatabase now {d} (Step.set_primary_product_image_for_product x y) h =
      writing-keeps violated (λ d. d.products) (λ t d. record d { products = t }) _ _ d
        IsSoundDatabase h
        (with_products d (set_primary_product_image_for_product now x y d.products).1
          (map_where-IsAscending (λ r. r.id) _ _ (λ r. refl) 0 d.products.rows _
            (IsSound-products d h))
          h)
  step-IsSoundDatabase now {d} (Step.create_product_root x) h =
      writing-keeps violated (λ d. d.product_roots) (λ t d. record d { product_roots = t }) _ _ d
        IsSoundDatabase h
        (with_product_roots d (create_product_root sq.numeric now x d.product_roots).1
          (append-IsAscending (λ r. r.id) 0 d.product_roots.rows _ _ (IsSound-product_roots d h)
            refl)
          h)
  step-IsSoundDatabase now {d} (Step.delete_product_root x) h =
      writing-keeps violated (λ d. d.product_roots) (λ t d. record d { product_roots = t }) _ _ d
        IsSoundDatabase h
        (with_product_roots d (delete_product_root now x d.product_roots).1
          (map_where-IsAscending (λ r. r.id) _ _ (λ r. refl) 0 d.product_roots.rows _
            (IsSound-product_roots d h))
          h)
  step-IsSoundDatabase now {d} (Step.create_product_option x) h =
      writing-keeps violated (λ d. d.product_options) (λ t d. record d { product_options = t }) _ _
        d IsSoundDatabase h
        (with_product_options d (create_product_option now x d.product_options).1
          (append-IsAscending (λ r. r.id) 0 d.product_options.rows _ _ (IsSound-product_options d h)
            refl)
          h)
  step-IsSoundDatabase now {d} (Step.update_product_option x) h =
      writing-keeps violated (λ d. d.product_options) (λ t d. record d { product_options = t }) _ _
        d IsSoundDatabase h
        (with_product_options d (update_product_option now x d.product_options).1
          (map_where-IsAscending (λ r. r.id) _ _ (λ r. refl) 0 d.product_options.rows _
            (IsSound-product_options d h))
          h)
  step-IsSoundDatabase now {d} (Step.delete_product_option x) h =
      writing-keeps violated (λ d. d.product_options) (λ t d. record d { product_options = t }) _ _
        d IsSoundDatabase h
        (with_product_options d (delete_product_option now x d.product_options).1
          (map_where-IsAscending (λ r. r.id) _ _ (λ r. refl) 0 d.product_options.rows _
            (IsSound-product_options d h))
          h)
  step-IsSoundDatabase now {d} (Step.archive_product_options_with_product_root_id x) h =
      writing-keeps violated (λ d. d.product_options) (λ t d. record d { product_options = t }) _ _
        d IsSoundDatabase h
        (with_product_options d
          (archive_product_options_with_product_root_id now x d.product_options).1
          (map_where-IsAscending (λ r. r.id) _ _ (λ r. refl) 0 d.product_options.rows _
            (IsSound-product_options d h))
          h)
  step-IsSoundDatabase now {d} (Step.create_product x) h =
      writing-keeps violated (λ d. d.products) (λ t d. record d { products = t }) _ _ d
        IsSoundDatabase h
        (with_products d (create_product sq.numeric now x d.products).1
          (append-IsAscending (λ r. r.id) 0 d.products.rows _ _ (IsSound-products d h) refl) h)
  step-IsSoundDatabase now {d} (Step.update_product x) h =
      writing-keeps violated (λ d. d.products) (λ t d. record d { products = t }) _ _ d
        IsSoundDatabase h
        (with_products d (update_product sq.numeric now x d.products).1
          (map_where-IsAscending (λ r. r.id) _ _ (λ r. refl) 0 d.products.rows _
            (IsSound-products d h))
          h)
  step-IsSoundDatabase now {d} (Step.delete_product x) h =
      writing-keeps violated (λ d. d.products) (λ t d. record d { products = t }) _ _ d
        IsSoundDatabase h
        (with_products d (delete_product now x d.products).1
          (map_where-IsAscending (λ r. r.id) _ _ (λ r. refl) 0 d.products.rows _
            (IsSound-products d h))
          h)
  step-IsSoundDatabase now {d} (Step.archive_products_with_product_root_id x) h =
      writing-keeps violated (λ d. d.products) (λ t d. record d { products = t }) _ _ d
        IsSoundDatabase h
        (with_products d (archive_products_with_product_root_id now x d.products).1
          (map_where-IsAscending (λ r. r.id) _ _ (λ r. refl) 0 d.products.rows _
            (IsSound-products d h))
          h)

  -- What statements at any times make of the migrated database.
  pub data Reach : Database → Type 0 where
    start : Reach migrated
    step :
        (now : Time) {d d' : Database}
        → Reach d
        → Step (postgres sq violated begin_err commit_err now) d d'
        → Reach d'

  -- In every database that statements make of the migrated one, whatever the constraints refuse, the ids
  -- of each of the thirteen tables ascend strictly and stay below the next one.
  pub Reach-IsSoundDatabase : (d : Database) → Reach d → IsSoundDatabase d
  Reach-IsSoundDatabase d start = (
    omega arith,
    omega arith,
    omega arith,
    omega arith,
    omega arith,
    omega arith,
    omega arith,
    omega arith,
    omega arith,
    omega arith,
    omega arith,
    omega arith,
    omega arith,
  )
  Reach-IsSoundDatabase d (step now r e) = step-IsSoundDatabase now e (Reach-IsSoundDatabase _ r)
