-- ===== src/Patch/Patcher.antt =====
-- The Patcher: Patch records a patch of a node and prepares the node's module and file.
use abcoder.Base.{
  ℕ, ◌-◌, ◌^◌, Bool, true, false, List, [], ◌∷◌, ◌++◌, Option, none, some, if◌then◌else◌,
}
use abcoder.Base.Int.{pos, ltb_ℤ}
use abcoder.Base.Text.{Text, text_eq}
use abcoder.Base.Result.{Result, ok, deref, ◌>>=◌}
use abcoder.Base.GoMap.{nil_map, GoMap, made, entries, assign, get, put, or_else}
use abcoder.Uniast.Identity.{Identity, id_eq, full}
use abcoder.Uniast.Language.{Language, NodeType, golang, unknown_language}
use abcoder.Uniast.Model.{FileLine, File, Import, Module, Relation, dependency, Node, Repository}
use abcoder.Uniast.Zero.{new_module, new_file, bare_relation, zero_file_line}
use abcoder.Uniast.Repository.{get_module, set_module}
use abcoder.Uniast.Node.{file_line, set_file_line}
use abcoder.Uniast.Relations.{insert_import}
use abcoder.Uniast.Graph.{set_node}
use abcoder.Uniast.Graph.Build.{get_node}
use abcoder.Uniast.Files.{module_file, create_file}
use abcoder.Patch.Splice.{FileRef, kept, dangling, PatchNode}

-- What is asked for: the Go struct Patch.
pub record Request : Type 0 where
  pub id : Identity
  pub codes : Text
  pub file : Text
  pub node_type : NodeType
  pub added_deps : List Identity

pub record Patcher : Type 0 where
  pub repo_dir : Text
  pub out_dir : Text
  pub default_language : Language
  pub repo : Repository
  pub patches : GoMap (List PatchNode)

pub data PatchError : Type 0 where
  unsupported_language : Language → PatchError
  import_failed : Identity → PatchError

abbrev pub max_int : ℕ
max_int = 2 ^ 63 - 1

abbrev pub new_patcher : Repository → Text → Text → Language → Patcher
new_patcher r repo_dir out_dir l = record {
  repo_dir = repo_dir;
  out_dir = out_dir;
  default_language = l;
  repo = r;
  patches = nil_map;
}

abbrev pub get_patch_nodes : Patcher → GoMap (List PatchNode)
get_patch_nodes p = p.patches

abbrev pub set_patch_nodes : Patcher → GoMap (List PatchNode) → Patcher
set_patch_nodes p ps = record p { patches = ps }

abbrev pub set_repo : Patcher → Repository → Patcher
set_repo p r = record p { repo = r }

-- A patch with no place in the file goes to its end.
unfoldable pub placed : PatchNode → PatchNode
placed n =
    if ltb_ℤ n.file_line.start_offset (pos 1)
    then record n { file_line = record n.file_line { start_offset = pos max_int } }
    else n

-- The method patch.
unfoldable pub add_patch : Patcher → PatchNode → Result Patcher
unfolding placed
add_patch p n = do
  let path = n.file_line.file
  ps ← put (made (entries p.patches)) path (or_else (get p.patches path) [] ++ placed n ∷ [])
  ok (record p { patches = ps })

-- The loop next_dep.
unfoldable pub depends : List Relation → Identity → Bool
depends [] dep = false
depends (r ∷ rs) dep = if id_eq r.identity dep then true else depends rs dep

unfoldable pub add_deps : List Relation → List Identity → List Relation
unfolding depends
add_deps rs [] = rs
add_deps rs (dep ∷ deps) =
    add_deps (if depends rs dep then rs else rs ++ bare_relation dependency dep (pos 0) ∷ []) deps

-- The node that is there, or a new one.
unfoldable pub ensure_node : Repository → Identity → NodeType → Result Repository
ensure_node r id typ = do
  found ← get_node r id
  elim found.1 [ some n ↦ ok found.0 | none ↦ set_node found.0 id typ ]

unfoldable pub ensure_module : Repository → Text → Language → Repository
ensure_module r m l = elim (get_module r m) [
  | some lib ↦ r
  | none ↦ set_module r m (new_module m [] l)
]

-- The file of the module, created if it is not there.
unfoldable pub ensure_file : Module → Text → Module
ensure_file lib path = elim (module_file lib path) [
  | some f ↦ lib
  | none ↦ create_file lib path (new_file path)
]

-- The node's lines, where it stands in the patched file; else line 0 of that file.
unfoldable pub settle_line : Repository → Node → Text → Result (Repository × FileLine)
settle_line r n path =
    if text_eq (file_line r n).file path
    then ok (r, file_line r n)
    else do r' ← set_file_line r n (record zero_file_line { file = path }); ok (r', file_line r' n)

unfoldable pub writer_language : Patcher → Language → Language
writer_language p l = if text_eq l unknown_language then p.default_language else l

-- A write through the pointer to the file.
unfoldable pub store_file : Repository → Text → Text → File → Repository
store_file r m path f = elim (get_module r m) [
  | none ↦ r
  | some lib ↦ set_module r m (record lib { files = made (assign path f (entries lib.files)) })
]

unfoldable pub keep_file : Option File → Repository → Text → Text → File → Repository × FileRef
unfolding store_file
keep_file none r m path f = (r, dangling f)
keep_file (some _) r m path f = (store_file r m path f, kept m path)

-- The end of Patch: an import that failed is an error, and the patch is not recorded.
unfoldable pub finish : Patcher → PatchNode → Option Identity → Result (Patcher × Option PatchError)
unfolding add_patch
finish p n (some dep) = ok (p, some (import_failed dep))
finish p n none = do p' ← add_patch p n; ok (p', none)

-- The Writer of the language turns an identity into an import, or fails. There is one for Go only.
module _ (id_to_import : Identity → Option Import) where
  -- The imports so far, and the dependency that failed.
  unfoldable pub add_imports : List Import → List Identity → List Import × Option Identity
  add_imports imports [] = (imports, none)
  add_imports imports (dep ∷ deps) = elim (id_to_import dep) [
    | some i ↦ add_imports (insert_import imports i) deps
    | none ↦ (imports, some dep)
  ]

  unfoldable pub finish_patch :
      Patcher → Request → Repository → FileLine → Option File → Result (Patcher × Option PatchError)
  unfolding add_imports finish keep_file
  finish_patch p q r fl found = do
    let f = or_else found (new_file q.file)
    let (imports, failed) = add_imports f.imports q.added_deps
    let (r', ref) = keep_file found r q.id.mod_path q.file (record f { imports = imports })
    let p' = record p { repo = r' }
    finish p' (record { identity = q.id; file_line = fl; codes = q.codes; file = ref }) failed

  -- The switch on the writer, which stands for the code that follows it.
  unfoldable pub write_file :
      Patcher → Request → Language → Repository → FileLine → Result (Patcher × Option PatchError)
  unfolding finish_patch
  write_file p q l r fl =
      if text_eq (writer_language p l) golang
      then (do
        lib ← deref (get_module r q.id.mod_path)
        finish_patch p q r fl (module_file lib q.file))
      else ok (record p { repo = r }, some (unsupported_language l))

  unfoldable pub patch : Patcher → Request → Result (Patcher × Option PatchError)
  unfolding write_file settle_line
  patch p q = do
    r ← ensure_node p.repo q.id q.node_type
    node ← deref (get r.graph (full q.id))
    let node' = record node { dependencies = add_deps node.dependencies q.added_deps }
    g ← put r.graph (full q.id) node'
    let r₁ = ensure_module (record r { graph = g }) q.id.mod_path p.default_language
    lib ← deref (get_module r₁ q.id.mod_path)
    settled ← settle_line (set_module r₁ q.id.mod_path (ensure_file lib q.file)) node' q.file
    write_file p q lib.language settled.0 settled.1
