-- ===== src/Auth.antt =====
-- The auth module: internal/authtoken, modules/auth and its queries.
pub mod Token
pub mod Tables
pub mod Queries
pub mod Sessions
pub mod Service
pub mod Login
pub mod Profile
pub mod Oauth
pub mod Tests
