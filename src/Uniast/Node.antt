-- ===== src/Uniast/Node.antt =====
-- The methods of Node in lang/uniast/node.go. Each begins with the same switch: the entity of the
-- node's type under the node's identity, in the repository that the node is attached to.
pub mod Write
pub mod Setters
pub mod Effects
use abcoder.Base.{Bool, true, false, List, [], ◌∷◌, Option, none, some, if◌then◌else◌}
use abcoder.Base.Text.{Text}
use abcoder.Base.Result.{Result, ok, ◌>>=◌}
use abcoder.Base.GoMap.{GoMap, get, put}
use abcoder.Base.Find.{first}
use abcoder.Uniast.Identity.{Identity, id_eq}
use abcoder.Uniast.Language.{NodeType, unknown, func, type, var}
use abcoder.Uniast.Model.{
  FileLine, Function, TypeDecl, Var, Package, Module, Repository, Relation, Node,
}
use abcoder.Uniast.Zero.{zero_file_line}
use abcoder.Uniast.Repository.{get_module, get_function, get_type, get_var, edit_package}

pub data Entity : Type 0 where
  function : Function → Entity
  type_decl : TypeDecl → Entity
  variable : Var → Entity

abbrev pub entity_kind : Entity → NodeType
entity_kind (function f) = func
entity_kind (type_decl t) = type
entity_kind (variable v) = var

abbrev pub node_type_eq : NodeType → NodeType → Bool
node_type_eq unknown unknown = true
node_type_eq func func = true
node_type_eq type type = true
node_type_eq var var = true
node_type_eq _ _ = false

abbrev pub option_map {ℓ κ} : {A : Type ℓ} {B : Type κ} → (A → B) → Option A → Option B
option_map f none = none
option_map f (some a) = some (f a)

-- The switch on Type.
unfoldable pub lookup_entity : Repository → NodeType → Identity → Option Entity
lookup_entity r func id = option_map function (get_function r id)
lookup_entity r type id = option_map type_decl (get_type r id)
lookup_entity r var id = option_map variable (get_var r id)
lookup_entity r unknown id = none

-- A node with no repository resolves to nothing.
unfoldable pub resolve : Repository → Node → Option Entity
resolve r n = if n.attached then lookup_entity r n.node_type n.identity else none

-- What a node shows: a field of the entity, or a default.
abbrev pub shown {ℓ} : {A : Type ℓ} → (Entity → A) → A → Option Entity → A
shown field default none = default
shown field default (some e) = field e

abbrev pub entity_content : Entity → Text
entity_content (function f) = f.content
entity_content (type_decl t) = t.content
entity_content (variable v) = v.content

unfoldable pub content : Repository → Node → Text
content r n = shown entity_content [] (resolve r n)

abbrev pub entity_compress_data : Entity → Option Text
entity_compress_data (function f) = f.compress_data
entity_compress_data (type_decl t) = t.compress_data
entity_compress_data (variable v) = v.compress_data

unfoldable pub compress_data : Repository → Node → Option Text
compress_data r n = shown entity_compress_data none (resolve r n)

abbrev pub entity_file_line : Entity → FileLine
entity_file_line (function f) = f.file_line
entity_file_line (type_decl t) = t.file_line
entity_file_line (variable v) = v.file_line

unfoldable pub file_line : Repository → Node → FileLine
file_line r n = shown entity_file_line zero_file_line (resolve r n)

abbrev pub entity_is_exported : Entity → Bool
entity_is_exported (function f) = f.exported
entity_is_exported (type_decl t) = t.exported
entity_is_exported (variable v) = v.is_exported

unfoldable pub is_exported : Repository → Node → Bool
is_exported r n = shown entity_is_exported false (resolve r n)

-- The signature of a function, the content of a type or a variable.
abbrev pub entity_signature : Entity → Text
entity_signature (function f) = f.signature
entity_signature (type_decl t) = t.content
entity_signature (variable v) = v.content

unfoldable pub signature : Repository → Node → Text
signature r n = shown entity_signature [] (resolve r n)

unfoldable pub module_of : Repository → Node → Option Module
module_of r n = if n.attached then get_module r n.identity.mod_path else none

unfoldable pub get_dependency : Node → Identity → Option Relation
unfolding first
get_dependency n id = first (λ dep. id_eq dep.identity id) n.dependencies

-- A write through the pointer to the entity that was found.
unfoldable pub overwrite : Text → Entity → Package → Result Package
overwrite n (function f) pp = do fs ← put pp.functions n f; ok (record pp { functions = fs })
overwrite n (type_decl t) pp = do ts ← put pp.types n t; ok (record pp { types = ts })
overwrite n (variable v) pp = do vs ← put pp.vars n v; ok (record pp { vars = vs })

-- The result says whether there was an entity to write to.
unfoldable pub write_node : Repository → Node → (Entity → Entity) → Result (Repository × Bool)
write_node r n edit = elim (resolve r n) [
  | some e ↦ edit_package r n.identity (overwrite n.identity.name (edit e)) >>= λ r'. ok (r', true)
  | none ↦ ok (r, false)
]

abbrev pub with_content : Text → Entity → Entity
with_content c (function f) = function (record f { content = c })
with_content c (type_decl t) = type_decl (record t { content = c })
with_content c (variable v) = variable (record v { content = c })

unfoldable pub set_content : Repository → Node → Text → Result (Repository × Bool)
set_content r n c = write_node r n (with_content c)

abbrev pub with_compress_data : Text → Entity → Entity
with_compress_data d (function f) = function (record f { compress_data = some d })
with_compress_data d (type_decl t) = type_decl (record t { compress_data = some d })
with_compress_data d (variable v) = variable (record v { compress_data = some d })

unfoldable pub set_compress_data : Repository → Node → Text → Result (Repository × Bool)
set_compress_data r n d = write_node r n (with_compress_data d)

abbrev pub with_file_line : FileLine → Entity → Entity
with_file_line l (function f) = function (record f { file_line = l })
with_file_line l (type_decl t) = type_decl (record t { file_line = l })
with_file_line l (variable v) = variable (record v { file_line = l })

unfoldable pub set_file_line : Repository → Node → FileLine → Result Repository
set_file_line r n l = write_node r n (with_file_line l) >>= λ out. ok out.0

abbrev pub with_exported : Bool → Entity → Entity
with_exported b (function f) = function (record f { exported = b })
with_exported b (type_decl t) = type_decl (record t { exported = b })
with_exported b (variable v) = variable (record v { is_exported = b })

unfoldable pub set_is_exported : Repository → Node → Bool → Result Repository
set_is_exported r n b = write_node r n (with_exported b) >>= λ out. ok out.0

-- Only the entity of a FUNC node has the flag.
abbrev pub with_is_method : Bool → Entity → Entity
with_is_method b (function f) = function (record f { is_method = b })
with_is_method b (type_decl t) = type_decl t
with_is_method b (variable v) = variable v

unfoldable pub set_is_method : Repository → Node → Bool → Result Repository
set_is_method r n b =
    if node_type_eq n.node_type func
    then (write_node r n (with_is_method b) >>= λ out. ok out.0)
    else ok r
