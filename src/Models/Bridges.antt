-- ===== src/Models/Bridges.antt =====
-- models/v1/product_image_bridge.go and product_variant_bridge.go
use dairycart.Prelude.{ℕ}
use dairycart.Models.Basics.{Time, Dairytime}

pub record ProductImageBridge : Type 0 where
  pub id : ℕ
  pub product_id : ℕ
  pub product_image_id : ℕ

pub record ProductVariantBridge : Type 0 where
  pub id : ℕ
  pub product_id : ℕ
  pub product_option_value_id : ℕ
  pub created_on : Time
  pub archived_on : Dairytime
