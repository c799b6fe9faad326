-- ===== src/Uniast/FileNodes.antt =====
-- Repository.GetFileNodes of lang/uniast/ast.go, and the small accessors of lang/uniast. GetNode may
-- build the graph, in the copy of the repository that GetFileNodes has.
use abcoder.Base.{
  ◌≡◌, refl, true, List, [], ◌∷◌, ◌++◌, map, Option, none, some, arith, if◌then◌else◌,
}
use abcoder.Base.Text.{Text, text_eq}
use abcoder.Base.Result.{Result, ok, ◌>>=◌}
use abcoder.Base.GoMap.{GoMap, nil_map, made, entries, get, find}
use abcoder.Uniast.Identity.{Identity}
use abcoder.Uniast.Model.{FileLine, Dependency, File, Package, Module, Node, Repository}
use abcoder.Uniast.Node.{option_map}
use abcoder.Uniast.Graph.Build.{get_node}
use abcoder.Uniast.Files.{get_file}

abbrev pub repository_id : Repository → Text
repository_id r = r.name

abbrev pub dependency_id : Dependency → Identity
dependency_id d = d.identity

abbrev pub append_option {ℓ} : {A : Type ℓ} → List A → Option A → List A
append_option xs none = xs
append_option xs (some x) = xs ++ x ∷ []

-- One loop: the nodes of the entities that stand in the file.
unfoldable pub nodes_in :
    Text → Repository × List Node → List (Identity × FileLine) → Result (Repository × List Node)
nodes_in path (r, ret) [] = ok (r, ret)
nodes_in path (r, ret) ((id, fl) ∷ es) =
    if text_eq fl.file path
    then (get_node r id >>= λ out. nodes_in path (out.0, append_option ret out.1) es)
    else nodes_in path (r, ret) es

abbrev function_places : Package → List (Identity × FileLine)
function_places pkg = map (λ e. (e.1.identity, e.1.file_line)) (entries pkg.functions)

abbrev type_places : Package → List (Identity × FileLine)
type_places pkg = map (λ e. (e.1.identity, e.1.file_line)) (entries pkg.types)

abbrev var_places : Package → List (Identity × FileLine)
var_places pkg = map (λ e. (e.1.identity, e.1.file_line)) (entries pkg.vars)

unfoldable pub package_nodes : Text → Repository → Package → Result (List Node)
unfolding nodes_in
package_nodes path r pkg = do
  fs ← nodes_in path (r, []) (function_places pkg)
  ts ← nodes_in path fs (type_places pkg)
  vs ← nodes_in path ts (var_places pkg)
  ok vs.1

unfoldable pub nodes_of_file : Text → Repository → Option (File × Module) → Result (List Node)
unfolding package_nodes
nodes_of_file path r none = ok []
nodes_of_file path r (some (file, lib)) = elim (get lib.packages file.pkg) [
  | none ↦ ok []
  | some pkg ↦ package_nodes path r pkg
]

-- The second guard of the source, an empty Package, never holds for what GetFile returns.
unfoldable pub get_file_nodes : Repository → Text → Result (List Node)
unfolding nodes_of_file
get_file_nodes r path = nodes_of_file path r (get_file r path)

-- AllNodesSetRepo.
abbrev pub attach : Node → Node
attach n = record n { attached = true }

unfoldable pub attach_entries : List (Text × Node) → List (Text × Node)
attach_entries [] = []
attach_entries ((k, n) ∷ es) = (k, attach n) ∷ attach_entries es

abbrev pub attach_graph : GoMap Node → GoMap Node
attach_graph nil_map = nil_map
attach_graph (made es) = made (attach_entries es)

unfoldable pub all_nodes_set_repo : Repository → Repository
unfolding attach_entries
all_nodes_set_repo r = record r { graph = attach_graph r.graph }

find-attach_entries :
    (k : Text) (es : List (Text × Node))
    → find k (attach_entries es) ≡ option_map attach (find k es)
unfolding find attach_entries
find-attach_entries k [] = refl
find-attach_entries k ((j, n) ∷ es) = ground (arith, find-attach_entries k es)

get-attach_graph :
    (k : Text) (g : GoMap Node) → get (attach_graph g) k ≡ option_map attach (get g k)
unfolding get
get-attach_graph k nil_map = unfold find in refl
get-attach_graph k (made es) = find-attach_entries k es

-- After AllNodesSetRepo each key has the node that it had, attached to the repository, and the
-- modules are as before.
pub get-all_nodes_set_repo :
    (r : Repository) (k : Text)
    → (get (all_nodes_set_repo r).graph k ≡ option_map attach (get r.graph k))
      × ((all_nodes_set_repo r).modules ≡ r.modules)
unfolding all_nodes_set_repo
get-all_nodes_set_repo r k = (get-attach_graph k r.graph, refl)
