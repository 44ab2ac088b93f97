-- ===== src/Users.antt =====
-- Accounts: apps/api/src/modules/users.
pub mod Service
pub mod Manage
pub mod Authority
pub mod Deletion
pub mod SuperAdmins
pub mod Bulk
pub mod BulkCases
pub mod BulkLaws
mod BulkTests
pub mod Tiers
mod Tests
