-- ===== src/Lsp.antt =====
-- Positions in texts: lang/lsp/utils.go, lang/utils/strings.go and the ranges of lang/lsp/lsp.go.
pub mod Position
pub mod Symbol
pub mod Offset
pub mod Range
pub mod Tokens
pub mod Pair
