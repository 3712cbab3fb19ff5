-- ===== src/Directory/Validation.antt =====
-- auth/src/directory/directory-validation.ts.
pub mod Scalars
pub mod Shapes
pub mod Inputs
pub mod Rows
pub mod Config
