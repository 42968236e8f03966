-- ===== src/Models.antt =====
-- models/v1: the rows that the store keeps and the payloads that clients send.
pub mod Basics
pub mod Discounts
pub mod Webhooks
pub mod Users
pub mod Options
pub mod Products
pub mod Roots
pub mod Bridges
