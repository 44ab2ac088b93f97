-- ===== src/Web.antt =====
-- The client's state outside its pages: apps/web/lib.
pub mod Screen
pub mod Client
pub mod Ringtone
pub mod CustomRingtone
