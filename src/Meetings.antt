-- ===== src/Meetings.antt =====
-- Meetings: apps/api/src/modules/meetings.
pub mod World
pub mod Backend
pub mod Service
pub mod Sequence
pub mod Joining
pub mod Entry
pub mod Managing
pub mod Upkeep
pub mod Events
mod Tests
mod UpkeepTests
