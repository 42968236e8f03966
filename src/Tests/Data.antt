-- ===== src/Tests/Data.antt =====
-- Rows, requests and a small store, at which the theorems are tried.
mod Rows
mod Stores
pub use Rows.*
pub use Stores.*
