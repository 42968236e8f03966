-- ===== src/Api/Users.antt =====
-- api/v1/users.go
pub mod Passwords
pub mod Accounts
pub mod Login
