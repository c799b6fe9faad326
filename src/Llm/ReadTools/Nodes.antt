-- ===== src/Llm/ReadTools/Nodes.antt =====
-- GetASTNode of llm/tool/ast_read.go answers for every node that the graph has.
use abcoder.Base.{◌≡◌, refl, ap, ◌∙◌, false, List, [], ◌∷◌, Option, some, if◌then◌else◌, map}
use abcoder.Base.Text.{All}
use abcoder.Base.Result.{ok, ◌>>=◌}
use abcoder.Base.GoMap.{get}
use abcoder.Uniast.Identity.{Identity, full}
use abcoder.Uniast.Model.{Node, Repository}
use abcoder.Uniast.Graph.Build.{get_node, no_graph, build_graph}
use abcoder.Llm.ReadTools.{NodeStruct, node_struct, keep_node, ast_nodes}

-- The graph has a node of the identity, under its name.
abbrev pub IsKnown : Repository → Identity → Type 0
IsKnown r id = (n : Node) × (get r.graph (full id) ≡ some n) × (n.identity ≡ id)

abbrev pub identity_of : NodeStruct → Identity
identity_of s = record { mod_path = s.mod_path; pkg_path = s.pkg_path; name = s.name }

get_node-built :
    (r : Repository) (id : Identity) (o : Option Node)
    → no_graph r.graph ≡ false
    → get r.graph (full id) ≡ o
    → get_node r id ≡ ok (r, o)
unfolding get_node
get_node-built r id o built at =
    ap (λ b. (if b then build_graph r else ok r) >>= λ r'. ok (r', get r'.graph (full id))) built
    ∙ ap (λ o. ok (r, o)) at

-- In a repository whose graph is built and has each requested node under its name, GetASTNode finds
-- them all: it leaves the repository as it is and answers with one node for each request, in the order
-- of the requests, each with the identity that was asked for.
pub ast_nodes-IsKnown :
    (r : Repository) (ids : List Identity)
    → no_graph r.graph ≡ false
    → All (IsKnown r) ids
    → (ns : List NodeStruct) × (ast_nodes r ids ≡ ok (r, ns)) × (map identity_of ns ≡ ids)
unfolding ast_nodes node_struct
ast_nodes-IsKnown r [] built known = ([], refl, refl)
ast_nodes-IsKnown r (id ∷ ids) built ((n, at, own), known) =
    let (ns, run, same) = ast_nodes-IsKnown r ids built known in
    (
      node_struct r n ∷ ns,
      ap (λ m. m >>= λ x. ast_nodes x.0 ids >>= λ rest. ok (rest.0, keep_node x rest.1))
            (get_node-built r id (some n) built at)
          ∙ ap (λ m. m >>= λ rest. ok (rest.0, node_struct r n ∷ rest.1)) run,
      ap (λ i. i ∷ map identity_of ns) own ∙ ap (λ is. id ∷ is) same,
    )
