-- ===== src/Llm/ReadTools.antt =====
-- The read tools of llm/tool/ast_read.go over the repositories that are loaded. A message to the agent is
-- a value that says what it is about. GetNode may build the graph of a repository, which is shared, so
-- the tools return the repositories too. Loading a file is a parameter of the event.
pub mod Watch
pub mod Nodes
pub mod Packages
use abcoder.Base.{
  ℕ, Bool, true, false, ◌&&◌, not, List, [], ◌∷◌, ◌++◌, Option, none, some, if◌then◌else◌, map,
}
use abcoder.Base.Int.{ℤ, pos}
use abcoder.Base.Text.{Text, text_eq, codes}
use abcoder.Base.Result.{Result, ok, panic, ◌>>=◌}
use abcoder.Base.GoMap.{find, assign, entries, get}
use abcoder.Base.Path.{path_base}
use abcoder.Base.Search.{contains_text, ends_with}
use abcoder.Uniast.Identity.{Identity}
use abcoder.Uniast.Language.{node_type_string}
use abcoder.Uniast.Model.{Import, File, Package, Module, Relation, Node, Repository}
use abcoder.Uniast.Files.{get_file, get_pkg_files}
use abcoder.Uniast.FileNodes.{get_file_nodes}
use abcoder.Uniast.Repository.{is_external}
use abcoder.Uniast.Graph.Build.{get_node}
use abcoder.Uniast.Node.{content, file_line, signature}

-- What the tools hold: the repositories by their names.
abbrev pub Repos : Type 0
Repos = List (Text × Repository)

-- The watch of the directory: a file that was written, with what LoadRepo gives, or removed.
pub data Event : Type 0 where
  written : Text → Option Repository → Event
  removed : Text → Event

unfoldable pub remove : Text → Repos → Repos
unfolding text_eq
remove k [] = []
remove k ((j, r) ∷ rs) = if text_eq j k then remove k rs else (j, r) ∷ remove k rs

abbrev store_loaded : Option Repository → Repos → Repos
store_loaded none rs = rs
store_loaded (some r) rs = assign r.name r rs

unfoldable pub watch : Event → Repos → Repos
unfolding remove ends_with path_base assign
watch (written file loaded) rs =
    if ends_with (codes ".json") file then store_loaded loaded rs else rs
watch (removed file) rs = if ends_with (codes ".json") file then remove (path_base file) rs else rs

unfoldable pub list_repos : Repos → List Text
list_repos [] = []
list_repos ((k, r) ∷ rs) = k ∷ list_repos rs

-- The names that contain a text.
unfoldable pub candidates : Text → List Text → List Text
unfolding contains_text
candidates name [] = []
candidates name (k ∷ ks) =
    if contains_text k name then k ∷ candidates name ks else candidates name ks

pub data Lookup : Type 0 where
  found : Text → Repository → Lookup
  not_found : Text → Lookup
  ambiguous : Text → List Text → Lookup

abbrev pub only_candidate : Text → Repos → List Text → Lookup
only_candidate name rs [] = not_found name
only_candidate name rs (k ∷ []) = elim (find k rs) [ some r ↦ found k r | none ↦ not_found k ]
only_candidate name rs (k ∷ j ∷ ks) = ambiguous name (k ∷ j ∷ ks)

unfoldable pub get_repo_ast : Repos → Text → Lookup
unfolding candidates list_repos find
get_repo_ast rs name = elim (find name rs) [
  | some r ↦ found name r
  | none ↦ only_candidate name rs (candidates name (list_repos rs))
]

pub record NodeStruct : Type 0 where
  pub mod_path : Text
  pub pkg_path : Text
  pub name : Text
  pub node_kind : Text
  pub signature : Text
  pub file : Text
  pub line : ℤ
  pub codes : Text
  pub dependencies : List Identity
  pub references : List Identity
  pub implements : List Identity
  pub groups : List Identity
  pub inherits : List Identity

pub record FileStruct : Type 0 where
  pub file_path : Text
  pub imports : List Import
  pub nodes : List NodeStruct

-- What a tool answers, and what its error is about; `none` is no error.
pub record Response {ℓ} (A : Type ℓ) : Type ℓ where
  pub answer : List A
  pub error : Option Lookup

pub record PackageStruct : Type 0 where
  pub pkg_path : Text
  pub files : List FileStruct

pub record ModuleStruct : Type 0 where
  pub mod_path : Text
  pub packages : List PackageStruct

unfoldable pub package_structs : Module → List (Text × Package) → List PackageStruct
unfolding get_pkg_files
package_structs lib [] = []
package_structs lib ((p, pkg) ∷ ps) =
    record {
      pkg_path = p;
      files =
          map {B = FileStruct} (λ f. record { file_path = f.path; imports = []; nodes = [] })
            (get_pkg_files lib p);
    }
    ∷ package_structs lib ps

unfoldable pub module_structs : List (Text × Module) → List ModuleStruct
unfolding package_structs is_external
module_structs [] = []
module_structs ((k, lib) ∷ ms) =
    if is_external lib
    then module_structs ms
    else record { mod_path = lib.name; packages = package_structs lib (entries lib.packages) }
      ∷ module_structs ms

unfoldable pub get_repo_structure : Repos → Text → Response ModuleStruct
unfolding get_repo_ast module_structs
get_repo_structure rs name = elim (get_repo_ast rs name) [
  | found k r ↦ record { answer = module_structs (entries r.modules); error = none }
  | not_found k ↦ record { answer = []; error = some (not_found k) }
  | ambiguous k ks ↦ record { answer = []; error = some (ambiguous k ks) }
]

abbrev pub relation_ids : List Relation → List Identity
relation_ids [] = []
relation_ids (x ∷ xs) = x.identity ∷ relation_ids xs

unfoldable pub node_struct : Repository → Node → NodeStruct
unfolding content file_line node_type_string
node_struct r n = record {
  mod_path = n.identity.mod_path;
  pkg_path = n.identity.pkg_path;
  name = n.identity.name;
  node_kind = node_type_string n.node_type;
  signature = [];
  file = (file_line r n).file;
  line = (file_line r n).line;
  codes = content r n;
  dependencies = relation_ids n.dependencies;
  references = relation_ids n.references;
  implements = relation_ids n.implements;
  groups = relation_ids n.groups;
  inherits = relation_ids n.inherits;
}

abbrev pub keep_node : Repository × Option Node → List NodeStruct → List NodeStruct
keep_node (r, none) rest = rest
keep_node (r, some n) rest = node_struct r n ∷ rest

-- The loop of GetASTNode.
unfoldable pub ast_nodes : Repository → List Identity → Result (Repository × List NodeStruct)
unfolding get_node node_struct
ast_nodes r [] = ok (r, [])
ast_nodes r (id ∷ ids) = do
  x ← get_node r id
  rest ← ast_nodes x.0 ids
  ok (rest.0, keep_node x rest.1)

pub record NodeResponse : Type 0 where
  pub nodes : List NodeStruct
  pub lookup_error : Option Lookup
  pub no_node : Bool

abbrev pub is_nil {ℓ} : {A : Type ℓ} → List A → Bool
is_nil [] = true
is_nil (x ∷ xs) = false

abbrev pub answer_nodes : Text → Repos → Repository × List NodeStruct → Repos × NodeResponse
answer_nodes k rs (r, ns) =
    (assign k r rs, record { nodes = ns; lookup_error = none; no_node = is_nil ns })

abbrev pub failed_lookup : Repos → Lookup → Repos × NodeResponse
failed_lookup rs e = (rs, record { nodes = []; lookup_error = some e; no_node = false })

unfoldable pub get_ast_node : Repos → Text → List Identity → Result (Repos × NodeResponse)
unfolding get_repo_ast ast_nodes assign
get_ast_node rs name ids = elim (get_repo_ast rs name) [
  | found k r ↦ ast_nodes r ids >>= λ x. ok (answer_nodes k rs x)
  | not_found k ↦ ok (failed_lookup rs (not_found k))
  | ambiguous k ks ↦ ok (failed_lookup rs (ambiguous k ks))
]

-- A node of a file: with its type, signature and line, or its name only.
abbrev pub file_node : Repository → File → Module → Bool → Node → NodeStruct
file_node r f lib detail n = record {
  mod_path = lib.name;
  pkg_path = f.pkg;
  name = n.identity.name;
  node_kind = if detail then node_type_string n.node_type else [];
  signature = if detail then signature r n else [];
  file = [];
  line = if detail then (file_line r n).line else pos 0;
  codes = [];
  dependencies = [];
  references = [];
  implements = [];
  groups = [];
  inherits = [];
}

abbrev pub file_struct : Repository → Text → Bool → File → Module → List Node → FileStruct
file_struct r path detail f lib ns = record {
  file_path = path;
  imports = if detail then f.imports else [];
  nodes = map (file_node r f lib detail) ns;
}

-- getFileStructure in a repository that was found; `none` for a file that is missing.
unfoldable pub get_file_structure : Repository → Text → Bool → Result (Option FileStruct)
unfolding get_file get_file_nodes node_type_string signature file_line
get_file_structure r path detail = elim (get_file r path) [
  | none ↦ ok none
  | some (f, lib) ↦ get_file_nodes r path >>= λ ns. ok (some (file_struct r path detail f lib ns))
]
