-- ===== src/Llm.antt =====
-- The tools by which an agent reads a repository: llm/tool/ast_read.go.
pub mod ReadTools
