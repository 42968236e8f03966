-- ===== src/Images.antt =====
-- storage/v1/images/main.go: the sizes of an image that a store keeps, and where it keeps them.
pub mod Local
use dairycart.Prelude.{String}

pub record ProductImageSet (I : Type 0) : Type 0 where
  pub thumbnail : I
  pub main : I
  pub original : I

pub record ProductImageLocations : Type 0 where
  pub thumbnail : String
  pub main : String
  pub original : String
