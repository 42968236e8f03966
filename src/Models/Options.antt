-- ===== src/Models/Options.antt =====
-- models/v1/product_options.go and product_option_values.go
use dairycart.Prelude.{ℕ, String, List}
use dairycart.Models.Basics.{Time, Dairytime}

pub record ProductOptionValue : Type 0 where
  pub id : ℕ
  pub product_option_id : ℕ
  pub value : String
  pub created_on : Time
  pub updated_on : Dairytime
  pub archived_on : Dairytime

pub record ProductOption : Type 0 where
  pub id : ℕ
  pub name : String
  pub product_root_id : ℕ
  pub created_on : Time
  pub updated_on : Dairytime
  pub archived_on : Dairytime
  pub values : List ProductOptionValue

pub record ProductOptionCreationInput : Type 0 where
  pub name : String
  pub values : List String

pub record ProductOptionUpdateInput : Type 0 where
  pub name : String
  pub product_root_id : ℕ
