-- ===== src/Api.antt =====
-- The handlers of api/v1.
pub mod Respond
pub mod Rules
pub mod Merging
pub mod Transactions
pub mod Numbers
pub mod Inputs
pub mod Variants
pub mod Filter
pub mod Discounts
pub mod Webhooks
pub mod Options
pub mod OptionValues
pub mod Roots
pub mod Products
pub mod Users
pub mod Routes
