-- ===== src/Postgres.antt =====
-- storage/v1/database/postgres: how the PostgreSQL store narrows and pages its lists, and its statements
-- on each table.
pub mod Filter
pub mod Rows
pub mod Statements
pub mod Laws
pub mod Refinement
pub mod Discounts
pub mod Webhooks
pub mod ExecutionLogs
pub mod Users
pub mod LoginAttempts
pub mod ResetTokens
pub mod Options
pub mod OptionValues
pub mod Images
pub mod ImageBridges
pub mod VariantBridges
pub mod Roots
pub mod Products
pub mod Database
pub mod Migrate
