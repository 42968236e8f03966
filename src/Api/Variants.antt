-- ===== src/Api/Variants.antt =====
-- `buildProductsFromOptions` of api/v1/product_options.go: the variants of a product, one for each
-- choice of a value of every option.
pub mod Odometer
pub mod Product
pub mod Remaining
pub mod Choices
pub mod Build
pub mod Correct
