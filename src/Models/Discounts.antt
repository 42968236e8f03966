-- ===== src/Models/Discounts.antt =====
-- models/v1/discounts.go
use dairycart.Prelude.{ℕ, Bool, String}
use dairycart.Models.Basics.{Time, Float64, Dairytime}

pub record Discount : Type 0 where
  pub id : ℕ
  pub name : String
  pub discount_type : String
  pub amount : Float64
  pub expires_on : Dairytime
  pub requires_code : Bool
  pub code : String
  pub limited_use : Bool
  pub number_of_uses : ℕ
  pub login_required : Bool
  pub starts_on : Time
  pub created_on : Time
  pub updated_on : Dairytime
  pub archived_on : Dairytime
