-- ===== src/Call.antt =====
-- Direct calls: apps/api/src/modules/realtime/call.service.ts.
pub mod Types
pub mod Presence
pub mod Ending
pub mod Placing
pub mod Race
pub mod Contest
pub mod Accepting
pub mod Endings
pub mod Glare
pub mod PresenceLaws
mod Tests
