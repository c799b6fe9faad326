-- ===== src/Lib.antt =====
-- Verification of abcoder's UniAST core, its patcher and parts of its parsers.
--
-- A repository in UniAST (lang/uniast) is a map of modules, of packages, of functions, types and
-- variables. Each entity has an Identity, printed ModPath?PkgPath#Name, which names it everywhere
-- else. Over the entities BuildGraph lays a graph of nodes: an entity's dependencies, and for each of
-- them the reference back. Agents read and write entities through the nodes, and the patcher
-- (lang/patch) records patches of nodes and splices them into the files. The parsers fill a repository:
-- for C++ and Rust from the tokens and symbols of a language server, which a specification of each
-- language interprets, and for Java from the messages of an analyzer, which a protocol reads from a
-- stream and a converter collects.
--
-- The files and the code they are about:
--   * Base: texts as lists of bytes, integers, results, Go's maps, searches in texts.
--   * Uniast/Identity, Language, Model, Zero, Repository, Files, FileNodes, Extra: lang/uniast/ast.go;
--     Language also holds NodeType, and FileNodes AllNodesSetRepo, of lang/uniast/node.go.
--   * Uniast/Node (reads and writes through a node), Uniast/Graph (SetNode, AddRelation; Build has
--     BuildGraph and GetNode, Sort the canonical order, with its laws in Sort/Canonical and Ordered):
--     lang/uniast/node.go.
--   * Uniast/Relations: the insertions of lang/uniast/utils.go.
--   * Patch/Patcher (Patch and patch), Patch/Splice (the loop of Flush over the patches of a file) and
--     Patch/Flush (all of Flush, over a disk that is a map of files): lang/patch/lib.go.
--   * Lsp: positions, ranges, line tables, offsets, locations, symbols, FindSingle and FindPair, of
--     lang/lsp/lsp.go, lang/lsp/utils.go and lang/utils/strings.go.
--   * Util/Dedup: lang/utils/strings.go and internal/utils/slice.go. Util/Marker: internal/utils/marker.go.
--   * Golang/PackageCache: the cache of lang/golang/parser/utils.go.
--   * Cpp: lang/cpp/spec.go. Spec has the kinds of tokens and symbols, Function has FunctionSymbol (laws
--     in Paren, Opening, Params and Parts), Repo has NameSpace and the search for an external repository,
--     Origin the repository's name in a git configuration.
--   * Rust: lang/rust/spec.go. Spec, Function and Space have the same parts of it.
--   * Java/Messages: lang/java/pb/messages.go. Java/Protocol: lang/java/ipc/protocol.go, with its lengths in
--     Bytes and what it writes and reads in RoundTrip. Java/Converter: lang/java/ipc/converter.go; Files,
--     Refine and Converted have its files, Filed and Closed its caches of classes.
--   * Llm/ReadTools: llm/tool/ast_read.go, with Watch on the loaded repositories, Nodes on
--     GetASTNode, and GetPackageStructure in Packages.
--   * Tests: runs at small inputs.
-- A function has the name of the Go function in snake case; set_function is Repository.SetFunction.
--
-- How Go is modelled. A string is the list of its bytes; ToLower changes ASCII letters. An int is an
-- unbounded integer, written out where the code depends on MaxInt. A pointer that may be nil is an
-- Option. A panic (a nil dereference, a write to a nil map, a slice out of bounds) is Result.panic. A
-- map is nil or a list of entries, whose order is the order of a range loop; a loop runs over the
-- entries that the map has when it starts. A node or an entity behind a pointer is named by its key,
-- and a write through the pointer writes the map's entry: no two entries share a pointer. Where they do
-- share, in Java/Converter, files and modules stand on a heap and a pointer is a place in it. sort.Slice
-- and sort.SliceStable are an insertion sort. Loops are recursion on lists. Only ReadAllMessages and
-- IterateXMLBlock have fuel, a round for each byte and one: a round takes bytes or is the last. A stream
-- of bytes ends with its list.
-- The Writer, which writes to the disk succeed, the operating system's answer about a package, the git
-- repository of a directory, the expression crateReg, filepath.Rel for Rust, what a JSON file loads to,
-- and the JSON library are parameters.
--
-- Not modelled: JSON encoding (but for TypeKind), reading and writing files but for Flush, locks, pools
-- and caches of computed values, debug output, and Module.LoadErrors. The language servers' clients,
-- the collectors, the parsers and writers of Go, the specifications of C, Python and Java, the Java
-- server, and the agents but for their read tools are left out: most of it drives other programs and
-- libraries.
pub mod Base
pub mod Uniast
pub mod Patch
pub mod Lsp
pub mod Util
pub mod Golang
pub mod Cpp
pub mod Rust
pub mod Java
pub mod Llm
mod Tests
