-- ===== src/Core.antt =====
-- auth/src/core: sessions, the login that issues them, and the tokens that stand for them.
pub mod Errors
pub mod Types
pub mod Validation
pub mod Inputs
pub mod Config
pub mod Exec
pub mod Host
pub mod Sessions
mod Sample
mod Tests
