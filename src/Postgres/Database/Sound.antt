-- ===== src/Postgres/Database/Sound.antt =====
-- A database whose tables are sound, and the soundness of a database with one table changed.
use dairycart.Models.Webhooks.{Webhook, WebhookExecutionLog}
use dairycart.Models.Discounts.{Discount}
use dairycart.Models.Users.{User, LoginAttempt, PasswordResetToken}
use dairycart.Models.Options.{ProductOption, ProductOptionValue}
use dairycart.Models.Products.{ProductImage, Product}
use dairycart.Models.Bridges.{ProductImageBridge, ProductVariantBridge}
use dairycart.Models.Roots.{ProductRoot}
use dairycart.Postgres.Refinement.{IsSound}
use dairycart.Postgres.Statements.{Table}
use dairycart.Postgres.Database.{Database}

-- In every table the ids ascend in the order of creation, and the next one is above them.
abbrev pub IsSoundDatabase : Database → Type 0
IsSoundDatabase d =
    IsSound (λ r. r.id) d.webhooks
    × IsSound (λ r. r.id) d.webhook_execution_logs
    × IsSound (λ r. r.id) d.discounts
    × IsSound (λ r. r.id) d.users
    × IsSound (λ r. r.id) d.login_attempts
    × IsSound (λ r. r.id) d.password_reset_tokens
    × IsSound (λ r. r.id) d.product_options
    × IsSound (λ r. r.id) d.product_option_values
    × IsSound (λ r. r.id) d.product_images
    × IsSound (λ r. r.id) d.product_image_bridges
    × IsSound (λ r. r.id) d.product_variant_bridges
    × IsSound (λ r. r.id) d.product_roots
    × IsSound (λ r. r.id) d.products

module _ (d : Database) where
  pub IsSound-webhooks : IsSoundDatabase d → IsSound (λ r. r.id) d.webhooks
  IsSound-webhooks (k, _, _, _, _, _, _, _, _, _, _, _, _) = k

  pub with_webhooks :
      (t : Table Webhook)
      → IsSound (λ r. r.id) t
      → IsSoundDatabase d
      → IsSoundDatabase (record d { webhooks = t })
  with_webhooks t k (_, h1, h2, h3, h4, h5, h6, h7, h8, h9, h10, h11, h12) =
      (k, h1, h2, h3, h4, h5, h6, h7, h8, h9, h10, h11, h12)

  pub IsSound-webhook_execution_logs :
      IsSoundDatabase d → IsSound (λ r. r.id) d.webhook_execution_logs
  IsSound-webhook_execution_logs (_, k, _, _, _, _, _, _, _, _, _, _, _) = k

  pub with_webhook_execution_logs :
      (t : Table WebhookExecutionLog)
      → IsSound (λ r. r.id) t
      → IsSoundDatabase d
      → IsSoundDatabase (record d { webhook_execution_logs = t })
  with_webhook_execution_logs t k (h0, _, h2, h3, h4, h5, h6, h7, h8, h9, h10, h11, h12) =
      (h0, k, h2, h3, h4, h5, h6, h7, h8, h9, h10, h11, h12)

  pub IsSound-discounts : IsSoundDatabase d → IsSound (λ r. r.id) d.discounts
  IsSound-discounts (_, _, k, _, _, _, _, _, _, _, _, _, _) = k

  pub with_discounts :
      (t : Table Discount)
      → IsSound (λ r. r.id) t
      → IsSoundDatabase d
      → IsSoundDatabase (record d { discounts = t })
  with_discounts t k (h0, h1, _, h3, h4, h5, h6, h7, h8, h9, h10, h11, h12) =
      (h0, h1, k, h3, h4, h5, h6, h7, h8, h9, h10, h11, h12)

  pub IsSound-users : IsSoundDatabase d → IsSound (λ r. r.id) d.users
  IsSound-users (_, _, _, k, _, _, _, _, _, _, _, _, _) = k

  pub with_users :
      (t : Table User)
      → IsSound (λ r. r.id) t
      → IsSoundDatabase d
      → IsSoundDatabase (record d { users = t })
  with_users t k (h0, h1, h2, _, h4, h5, h6, h7, h8, h9, h10, h11, h12) =
      (h0, h1, h2, k, h4, h5, h6, h7, h8, h9, h10, h11, h12)

  pub IsSound-login_attempts : IsSoundDatabase d → IsSound (λ r. r.id) d.login_attempts
  IsSound-login_attempts (_, _, _, _, k, _, _, _, _, _, _, _, _) = k

  pub with_login_attempts :
      (t : Table LoginAttempt)
      → IsSound (λ r. r.id) t
      → IsSoundDatabase d
      → IsSoundDatabase (record d { login_attempts = t })
  with_login_attempts t k (h0, h1, h2, h3, _, h5, h6, h7, h8, h9, h10, h11, h12) =
      (h0, h1, h2, h3, k, h5, h6, h7, h8, h9, h10, h11, h12)

  pub IsSound-password_reset_tokens :
      IsSoundDatabase d → IsSound (λ r. r.id) d.password_reset_tokens
  IsSound-password_reset_tokens (_, _, _, _, _, k, _, _, _, _, _, _, _) = k

  pub with_password_reset_tokens :
      (t : Table PasswordResetToken)
      → IsSound (λ r. r.id) t
      → IsSoundDatabase d
      → IsSoundDatabase (record d { password_reset_tokens = t })
  with_password_reset_tokens t k (h0, h1, h2, h3, h4, _, h6, h7, h8, h9, h10, h11, h12) =
      (h0, h1, h2, h3, h4, k, h6, h7, h8, h9, h10, h11, h12)

  pub IsSound-product_options : IsSoundDatabase d → IsSound (λ r. r.id) d.product_options
  IsSound-product_options (_, _, _, _, _, _, k, _, _, _, _, _, _) = k

  pub with_product_options :
      (t : Table ProductOption)
      → IsSound (λ r. r.id) t
      → IsSoundDatabase d
      → IsSoundDatabase (record d { product_options = t })
  with_product_options t k (h0, h1, h2, h3, h4, h5, _, h7, h8, h9, h10, h11, h12) =
      (h0, h1, h2, h3, h4, h5, k, h7, h8, h9, h10, h11, h12)

  pub IsSound-product_option_values :
      IsSoundDatabase d → IsSound (λ r. r.id) d.product_option_values
  IsSound-product_option_values (_, _, _, _, _, _, _, k, _, _, _, _, _) = k

  pub with_product_option_values :
      (t : Table ProductOptionValue)
      → IsSound (λ r. r.id) t
      → IsSoundDatabase d
      → IsSoundDatabase (record d { product_option_values = t })
  with_product_option_values t k (h0, h1, h2, h3, h4, h5, h6, _, h8, h9, h10, h11, h12) =
      (h0, h1, h2, h3, h4, h5, h6, k, h8, h9, h10, h11, h12)

  pub IsSound-product_images : IsSoundDatabase d → IsSound (λ r. r.id) d.product_images
  IsSound-product_images (_, _, _, _, _, _, _, _, k, _, _, _, _) = k

  pub with_product_images :
      (t : Table ProductImage)
      → IsSound (λ r. r.id) t
      → IsSoundDatabase d
      → IsSoundDatabase (record d { product_images = t })
  with_product_images t k (h0, h1, h2, h3, h4, h5, h6, h7, _, h9, h10, h11, h12) =
      (h0, h1, h2, h3, h4, h5, h6, h7, k, h9, h10, h11, h12)

  pub IsSound-product_image_bridges :
      IsSoundDatabase d → IsSound (λ r. r.id) d.product_image_bridges
  IsSound-product_image_bridges (_, _, _, _, _, _, _, _, _, k, _, _, _) = k

  pub with_product_image_bridges :
      (t : Table ProductImageBridge)
      → IsSound (λ r. r.id) t
      → IsSoundDatabase d
      → IsSoundDatabase (record d { product_image_bridges = t })
  with_product_image_bridges t k (h0, h1, h2, h3, h4, h5, h6, h7, h8, _, h10, h11, h12) =
      (h0, h1, h2, h3, h4, h5, h6, h7, h8, k, h10, h11, h12)

  pub IsSound-product_variant_bridges :
      IsSoundDatabase d → IsSound (λ r. r.id) d.product_variant_bridges
  IsSound-product_variant_bridges (_, _, _, _, _, _, _, _, _, _, k, _, _) = k

  pub with_product_variant_bridges :
      (t : Table ProductVariantBridge)
      → IsSound (λ r. r.id) t
      → IsSoundDatabase d
      → IsSoundDatabase (record d { product_variant_bridges = t })
  with_product_variant_bridges t k (h0, h1, h2, h3, h4, h5, h6, h7, h8, h9, _, h11, h12) =
      (h0, h1, h2, h3, h4, h5, h6, h7, h8, h9, k, h11, h12)

  pub IsSound-product_roots : IsSoundDatabase d → IsSound (λ r. r.id) d.product_roots
  IsSound-product_roots (_, _, _, _, _, _, _, _, _, _, _, k, _) = k

  pub with_product_roots :
      (t : Table ProductRoot)
      → IsSound (λ r. r.id) t
      → IsSoundDatabase d
      → IsSoundDatabase (record d { product_roots = t })
  with_product_roots t k (h0, h1, h2, h3, h4, h5, h6, h7, h8, h9, h10, _, h12) =
      (h0, h1, h2, h3, h4, h5, h6, h7, h8, h9, h10, k, h12)

  pub IsSound-products : IsSoundDatabase d → IsSound (λ r. r.id) d.products
  IsSound-products (_, _, _, _, _, _, _, _, _, _, _, _, k) = k

  pub with_products :
      (t : Table Product)
      → IsSound (λ r. r.id) t
      → IsSoundDatabase d
      → IsSoundDatabase (record d { products = t })
  with_products t k (h0, h1, h2, h3, h4, h5, h6, h7, h8, h9, h10, h11, _) =
      (h0, h1, h2, h3, h4, h5, h6, h7, h8, h9, h10, h11, k)
