-- ===== src/Rust.antt =====
-- The Rust specification: lang/rust/spec.go.
pub mod Spec
pub mod Function
pub mod Space
