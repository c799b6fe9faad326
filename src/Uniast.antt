-- ===== src/Uniast.antt =====
-- lang/uniast: the universal abstract syntax tree.
pub mod Identity
pub mod Language
pub mod Model
pub mod Zero
pub mod Repository
pub mod Node
pub mod Relations
pub mod Graph
pub mod Files
pub mod FileNodes
pub mod Extra
