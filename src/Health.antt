-- ===== src/Health.antt =====
-- The health package: health/src.
pub mod Checks
pub mod Scheduler
pub mod Monitor
mod Tests
