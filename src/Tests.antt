-- ===== src/Tests.antt =====
-- Runs of the operations on small inputs.
mod Data
mod Graph
mod Patch
mod Store
mod Identity
mod Node
mod Files
mod Extra
mod Position
mod Slices
mod Flush
mod Marker
mod ReadTools
mod Cpp
mod Rust
mod Java
