-- ===== src/Auth/Queries.antt =====
-- The queries of modules/auth, by the tables they read and write.
pub mod Sessions
pub mod Users
pub mod Accounts
