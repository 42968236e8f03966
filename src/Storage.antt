-- ===== src/Storage.antt =====
-- storage/v1/database: the interface between the handlers and a store.
pub mod Answers
pub mod Storer
pub mod Steps
