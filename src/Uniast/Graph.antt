-- ===== src/Uniast/Graph.antt =====
-- The graph of a repository: GetNode, SetNode, AddRelation and BuildGraph of lang/uniast/node.go.
-- A node is held by pointer in the map of the graph: it is named by its key, and a write through the
-- pointer writes the map's entry. The loops run over the entries that the maps have at the start.
pub mod Edges
pub mod Sort
pub mod Build
pub mod Mirror
pub mod Declared
pub mod Total
pub mod Frame
pub mod Ordered
use abcoder.Base.{
  ◌≡◌, Bool, true, false, ◌&&◌, ◌||◌, List, [], ◌∷◌, ◌++◌, map, Option, none, some, if◌then◌else◌,
}
use abcoder.Base.Int.{ℤ, pos, ◌-ℤ◌, leb_ℤ, ltb_ℤ}
use abcoder.Base.Text.{Text, text_eq, text_lt}
use abcoder.Base.Result.{Result, ok, panic, deref, ◌>>=◌, each}
use abcoder.Base.GoMap.{GoMap, nil_map, made, entries, get, put, or_else}
use abcoder.Uniast.Identity.{Identity, full}
use abcoder.Uniast.Language.{NodeType, unknown, func, type, var}
use abcoder.Uniast.Model.{
  FileLine, Dependency, Receiver, Function, TypeDecl, Var, Package, Module, RelationKind,
  dependency, implement, inherit, group, Relation, Node, Repository,
}
use abcoder.Uniast.Zero.{bare_function, bare_type, bare_var, bare_relation, new_node}
use abcoder.Uniast.Repository.{
  is_external, get_function, get_type, get_var, set_function, set_type, set_var,
}
use abcoder.Uniast.Node.{file_line}
use abcoder.Uniast.Relations.{insert_relation}

-- The entity is created where it is not there.
unfoldable pub place_entity : Repository → Identity → NodeType → Result Repository
place_entity r id func = elim (get_function r id) [
  | some f ↦ ok r
  | none ↦ set_function r id (bare_function id) >>= λ out. ok out.0
]
place_entity r id type = elim (get_type r id) [
  | some t ↦ ok r
  | none ↦ set_type r id (bare_type id) >>= λ out. ok out.0
]
place_entity r id var = elim (get_var r id) [
  | some v ↦ ok r
  | none ↦ set_var r id (bare_var id) >>= λ out. ok out.0
]
place_entity r id unknown = ok r

-- The node that is there, or a new one of the type; its Repo is set.
abbrev pub settled_node : Option Node → Identity → NodeType → Node
settled_node none id typ = new_node id typ true
settled_node (some n) id typ = record n { attached = true }

-- SetNode returns the node under `full id`.
unfoldable pub set_node : Repository → Identity → NodeType → Result Repository
set_node r id typ = do
  g ← put r.graph (full id) (settled_node (get r.graph (full id)) id typ)
  place_entity (record r { graph = g }) id typ

unfoldable pub cal_offset : FileLine → FileLine → ℤ
cal_offset ref dep =
    let ref_line = dep.line -ℤ ref.line in if leb_ℤ ref_line (pos 0) then pos 0 else ref_line

-- The first loop of AddRelation: the relation goes to the slice of its kind.
unfoldable pub relate : Identity → ℤ → Node → RelationKind → Node
relate dep l n dependency = record n {
  dependencies = insert_relation n.dependencies (bare_relation dependency dep l);
}
relate dep l n implement = record n {
  implements = insert_relation n.implements (bare_relation implement dep l);
}
relate dep l n inherit = record n {
  inherits = insert_relation n.inherits (bare_relation inherit dep l);
}
relate dep l n group = record n { groups = insert_relation n.groups (bare_relation group dep l) }

unfoldable pub relate_all : Identity → ℤ → Node → List RelationKind → Node
relate_all dep l n [] = n
relate_all dep l n (k ∷ ks) = relate_all dep l (relate dep l n k) ks

-- The second loop: a dependency is also a reference of its target.
unfoldable pub refer : Identity → ℤ → Node → RelationKind → Node
refer source l nd dependency = record nd {
  references = insert_relation nd.references (bare_relation dependency source l);
}
refer source l nd implement = nd
refer source l nd inherit = nd
refer source l nd group = nd

unfoldable pub refer_all : Identity → ℤ → Node → List RelationKind → Node
refer_all source l nd [] = nd
refer_all source l nd (k ∷ ks) = refer_all source l (refer source l nd k) ks

-- The type of the target, if an entity is found under its identity.
unfoldable pub found_type : Repository → Identity → Option NodeType
found_type r id = elim (get_function r id) [
  | some f ↦ some func
  | none ↦ elim (get_type r id) [
    | some t ↦ some type
    | none ↦ elim (get_var r id) [ some v ↦ some var | none ↦ none ]
  ]
]

abbrev pub typed_node : Option NodeType → Node → Node
typed_node none nd = nd
typed_node (some t) nd = record nd { node_type = t; attached = true }

-- AddRelation; the node is the one under `key`.
unfoldable pub add_relation :
    Repository → Text → Identity → FileLine → List RelationKind → Result Repository
add_relation r key dep dep_fl kinds = do
  node ← deref (get r.graph key)
  let l = cal_offset (file_line r node) dep_fl
  g ← put r.graph key (relate_all dep l node kinds)
  let nd = or_else (get g (full dep)) (new_node dep unknown true)
  g' ← put g (full dep) (typed_node (found_type r dep) (refer_all node.identity l nd kinds))
  ok (record r { graph = g' })

-- A loop of BuildGraph over one slice of an entity. The relation's line is taken from the
-- dependency, or from the node where the slice holds identities.
unfoldable pub add_dependencies :
    Text → RelationKind → Repository → List Dependency → Result Repository
add_dependencies key kind r deps =
    each (λ r' dep. add_relation r' key dep.identity dep.file_line (kind ∷ [])) deps r

unfoldable pub add_identities : Text → RelationKind → Repository → List Identity → Result Repository
add_identities key kind r ids =
    each
      (λ r' id. do
        node ← deref (get r'.graph key)
        add_relation r' key id (file_line r' node) (kind ∷ []))
      ids r

unfoldable pub add_receiver : Text → Repository → Option Receiver → Result Repository
add_receiver key r none = ok r
add_receiver key r (some rcv) = add_identities key dependency r (rcv.receiver_type ∷ [])

unfoldable pub graph_function : Repository → Text × Function → Result Repository
graph_function r (_, f) = do
  let key = full f.identity
  r₁ ← set_node r f.identity func
  r₂ ← add_dependencies key dependency r₁ f.params
  r₃ ← add_dependencies key dependency r₂ f.results
  r₄ ← add_dependencies key dependency r₃ f.function_calls
  r₅ ← add_dependencies key dependency r₄ f.method_calls
  r₆ ← add_dependencies key dependency r₅ f.types
  r₇ ← add_receiver key r₆ f.receiver
  add_dependencies key dependency r₇ f.global_vars

unfoldable pub graph_type : Repository → Text × TypeDecl → Result Repository
graph_type r (_, t) = do
  let key = full t.identity
  r₁ ← set_node r t.identity type
  r₂ ← add_dependencies key dependency r₁ t.sub_struct
  r₃ ← add_dependencies key inherit r₂ t.inline_struct
  add_identities key implement r₃ t.implements

unfoldable pub add_var_type : Text → FileLine → Repository → Option Identity → Result Repository
add_var_type key fl r none = ok r
add_var_type key fl r (some id) = add_relation r key id fl (dependency ∷ [])

unfoldable pub graph_var : Repository → Text × Var → Result Repository
graph_var r (_, v) = do
  let key = full v.identity
  r₁ ← set_node r v.identity var
  r₂ ← add_var_type key v.file_line r₁ v.var_type
  r₃ ← add_dependencies key dependency r₂ v.dependencies
  add_identities key group r₃ v.groups

unfoldable pub graph_package : Repository → Text × Package → Result Repository
graph_package r (_, pkg) = do
  r₁ ← each graph_function (entries pkg.functions) r
  r₂ ← each graph_type (entries pkg.types) r₁
  each graph_var (entries pkg.vars) r₂

unfoldable pub graph_module : Repository → Text × Module → Result Repository
graph_module r (_, m) = if is_external m then ok r else each graph_package (entries m.packages) r
