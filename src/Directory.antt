-- ===== src/Directory.antt =====
-- auth/src/directory: the identity directory.
pub mod Errors
pub mod Types
pub mod Validation
pub mod Host
pub mod Exec
pub mod Atomic
pub mod Reads
pub mod Guards
pub mod Preflight
pub mod Mutate
pub mod Facade
pub mod Sample
mod Tests
pub mod Evolves
