-- ===== src/Golang.antt =====
-- The Go parser's helpers: lang/golang/parser.
pub mod PackageCache
