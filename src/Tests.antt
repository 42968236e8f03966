-- ===== src/Tests.antt =====
-- The theorems at concrete requests.
mod Data
mod Crypto
mod Users
mod Products
mod Rest
mod Tables
mod Stocked
mod Remote
mod Start
