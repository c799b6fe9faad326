-- ===== src/Patch.antt =====
-- lang/patch/lib.go: patches of nodes, collected per file and spliced into the files' bytes.
pub mod Splice
pub mod Flush
pub mod Sorted
pub mod Stable
pub mod Correct
pub mod Shrink
pub mod Patcher
pub mod Record
