-- ===== src/Cpp.antt =====
-- The C++ specification: lang/cpp/spec.go.
pub mod Spec
pub mod Function
pub mod Paren
pub mod Params
pub mod Opening
pub mod Parts
pub mod Repo
pub mod Origin
