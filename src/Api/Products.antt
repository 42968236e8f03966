-- ===== src/Api/Products.antt =====
-- api/v1/products.go and product_images.go
pub mod Images
pub mod Handlers
pub mod Update
pub mod Creation
pub mod Atomic
