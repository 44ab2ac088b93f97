-- ===== src/Auth.antt =====
-- Sign-in: apps/api/src/modules/auth, registration, sign-in and the refresh tokens.
pub mod Token
pub mod SignIn
pub mod Accounts
pub mod Registration
pub mod Rotation
mod Tests
mod AccountTests
