-- ===== src/Uniast/Graph/Build.antt =====
-- BuildGraph, and the edges that a repository declares.
use abcoder.Base.{Bool, true, false, List, [], ◌∷◌, ◌++◌, Option, none, some, if◌then◌else◌}
use abcoder.Base.Text.{Text}
use abcoder.Base.Result.{Result, ok, ◌>>=◌, each}
use abcoder.Base.GoMap.{GoMap, nil_map, made, entries, get}
use abcoder.Uniast.Identity.{Identity, full}
use abcoder.Uniast.Model.{
  Dependency, Receiver, Function, TypeDecl, Var, Package, Module, RelationKind, dependency, Node,
  Repository,
}
use abcoder.Uniast.Repository.{is_external}
use abcoder.Uniast.Graph.{graph_module}
use abcoder.Uniast.Graph.Edges.{edges_of}
use abcoder.Uniast.Graph.Sort.{sort_graph}

unfoldable pub build_graph : Repository → Result Repository
build_graph r = do
  r' ← each graph_module (entries r.modules) (record r { graph = made [] })
  ok (record r' { graph = sort_graph r'.graph })

-- GetNode builds the graph where there is none.
abbrev pub no_graph : GoMap Node → Bool
no_graph nil_map = true
no_graph (made []) = true
no_graph (made (e ∷ es)) = false

unfoldable pub get_node : Repository → Identity → Result (Repository × Option Node)
get_node r id = do
  r' ← (if no_graph r.graph then build_graph r else ok r)
  ok (r', get r'.graph (full id))

abbrev pub gather {ℓ κ} : {A : Type ℓ} {B : Type κ} → (A → List B) → List A → List B
gather f [] = []
gather f (a ∷ as') = f a ++ gather f as'

-- The edges that one entity declares, as pairs of printed identities.
unfoldable pub dependency_edges : Text → RelationKind → List Dependency → List (Text × Text)
unfolding edges_of
dependency_edges key kind = gather (λ dep. edges_of kind key (full dep.identity))

unfoldable pub identity_edges : Text → RelationKind → List Identity → List (Text × Text)
unfolding edges_of
identity_edges key kind = gather (λ id. edges_of kind key (full id))

abbrev pub receiver_edges : Text → Option Receiver → List (Text × Text)
receiver_edges key none = []
receiver_edges key (some rcv) = (key, full rcv.receiver_type) ∷ []

abbrev pub function_edges : Text × Function → List (Text × Text)
function_edges (_, f) =
    let key = full f.identity in
    let deps = dependency_edges key dependency in
    deps f.params
    ++ (deps f.results
        ++ (deps f.function_calls
            ++ (deps f.method_calls
                ++ (deps f.types ++ (receiver_edges key f.receiver ++ deps f.global_vars)))))

abbrev pub type_edges : Text × TypeDecl → List (Text × Text)
type_edges (_, t) = dependency_edges (full t.identity) dependency t.sub_struct

abbrev pub var_type_edges : Text → Option Identity → List (Text × Text)
var_type_edges key none = []
var_type_edges key (some id) = (key, full id) ∷ []

abbrev pub var_edges : Text × Var → List (Text × Text)
var_edges (_, v) =
    let key = full v.identity in
    var_type_edges key v.var_type ++ dependency_edges key dependency v.dependencies

abbrev pub package_edges : Text × Package → List (Text × Text)
package_edges (_, pkg) =
    gather function_edges (entries pkg.functions)
    ++ (gather type_edges (entries pkg.types) ++ gather var_edges (entries pkg.vars))

abbrev pub module_edges : Text × Module → List (Text × Text)
module_edges (_, m) = if is_external m then [] else gather package_edges (entries m.packages)

-- The edges of a repository: those of the entities of its internal modules.
abbrev pub declared_edges : Repository → List (Text × Text)
declared_edges r = gather module_edges (entries r.modules)
