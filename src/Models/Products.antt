-- ===== src/Models/Products.antt =====
-- models/v1/products.go and product_images.go
use dairycart.Prelude.{ℕ, Bool, String, Option, List}
use dairycart.Models.Basics.{Time, Float64, Dairytime}
use dairycart.Models.Options.{ProductOptionValue, ProductOptionCreationInput}

pub record ProductImage : Type 0 where
  pub id : ℕ
  pub product_root_id : ℕ
  pub thumbnail_url : String
  pub main_url : String
  pub original_url : String
  pub source_url : String
  pub created_on : Time
  pub updated_on : Dairytime
  pub archived_on : Dairytime

pub record ProductImageCreationInput : Type 0 where
  pub is_primary : Bool
  pub image_type : String
  pub image_data : String

pub record Product : Type 0 where
  pub id : ℕ
  pub product_root_id : ℕ
  pub primary_image_id : Option ℕ
  pub name : String
  pub subtitle : String
  pub description : String
  pub option_summary : String
  pub sku : String
  pub upc : String
  pub manufacturer : String
  pub brand : String
  pub quantity : ℕ
  pub taxable : Bool
  pub price : Float64
  pub on_sale : Bool
  pub sale_price : Float64
  pub cost : Float64
  pub product_weight : Float64
  pub product_height : Float64
  pub product_width : Float64
  pub product_length : Float64
  pub package_weight : Float64
  pub package_height : Float64
  pub package_width : Float64
  pub package_length : Float64
  pub quantity_per_package : ℕ
  pub available_on : Time
  pub created_on : Time
  pub updated_on : Dairytime
  pub archived_on : Dairytime
  pub images : List ProductImage
  pub applicable_option_values : List ProductOptionValue

pub record ProductCreationInput : Type 0 where
  pub name : String
  pub subtitle : String
  pub description : String
  pub option_summary : String
  pub sku : String
  pub upc : String
  pub manufacturer : String
  pub brand : String
  pub quantity : ℕ
  pub taxable : Bool
  pub price : Float64
  pub on_sale : Bool
  pub sale_price : Float64
  pub cost : Float64
  pub product_weight : Float64
  pub product_height : Float64
  pub product_width : Float64
  pub product_length : Float64
  pub package_weight : Float64
  pub package_height : Float64
  pub package_width : Float64
  pub package_length : Float64
  pub quantity_per_package : ℕ
  pub available_on : Dairytime
  pub images : List ProductImageCreationInput
  pub options : List ProductOptionCreationInput
