-- ===== src/Models/Roots.antt =====
-- models/v1/product_roots.go
use dairycart.Prelude.{ℕ, Bool, String, Option, List}
use dairycart.Models.Basics.{Time, Float64, Dairytime}
use dairycart.Models.Options.{ProductOption}
use dairycart.Models.Products.{Product, ProductImage}

pub record ProductRoot : Type 0 where
  pub id : ℕ
  pub name : String
  pub primary_image_id : Option ℕ
  pub subtitle : String
  pub description : String
  pub sku_prefix : String
  pub manufacturer : String
  pub brand : String
  pub taxable : Bool
  pub cost : Float64
  pub product_weight : Float64
  pub product_height : Float64
  pub product_width : Float64
  pub product_length : Float64
  pub package_weight : Float64
  pub package_height : Float64
  pub package_width : Float64
  pub package_length : Float64
  pub quantity_per_package : ℕ
  pub available_on : Time
  pub created_on : Time
  pub updated_on : Dairytime
  pub archived_on : Dairytime
  pub options : List ProductOption
  pub images : List ProductImage
  pub products : List Product
