-- ===== src/Uniast/Graph/Ordered.antt =====
-- The order of the relations of every node that BuildGraph (lang/uniast/node.go) leaves.
use abcoder.Base.{◌≡◌, ◌∙◌, sym, ap, [], Option, none, some}
use abcoder.Base.Text.{Text}
use abcoder.Base.Result.{ok, ok-injective, each, bind_ok}
use abcoder.Base.GoMap.{made, entries, get}
use abcoder.Uniast.Model.{Node, Repository}
use abcoder.Uniast.Node.{option_map}
use abcoder.Uniast.Graph.{graph_module}
use abcoder.Uniast.Graph.Build.{build_graph}
use abcoder.Uniast.Graph.Sort.{sort_node, get-sort_graph}
use abcoder.Uniast.Graph.Sort.Canonical.{IsCanonical, sort_relations-IsCanonical}

-- All five slices of a node are in the canonical order.
pub record AreCanonical (n : Node) : Type 0 where
  pub dependencies : IsCanonical n.dependencies
  pub references : IsCanonical n.references
  pub implements : IsCanonical n.implements
  pub inherits : IsCanonical n.inherits
  pub groups : IsCanonical n.groups

sort_node-AreCanonical : (n : Node) → AreCanonical (sort_node n)
unfolding sort_node
sort_node-AreCanonical n = record {
  dependencies = (sort_relations-IsCanonical n.dependencies).1;
  references = (sort_relations-IsCanonical n.references).1;
  implements = (sort_relations-IsCanonical n.implements).1;
  inherits = (sort_relations-IsCanonical n.inherits).1;
  groups = (sort_relations-IsCanonical n.groups).1;
}

sorted-AreCanonical :
    (o : Option Node) (n : Node) → option_map sort_node o ≡ some n → AreCanonical n
sorted-AreCanonical none n h = absurd (cc)
sorted-AreCanonical (some m) n h =
    let same : sort_node m ≡ n = cc in coe 0 1 (t. AreCanonical (same t)) (sort_node-AreCanonical m)

-- In the graph that BuildGraph leaves, the dependencies, references, implements, inherits and
-- groups of every node stand in the canonical order.
pub build_graph-AreCanonical :
    (r r' : Repository) (k : Text) (n : Node)
    → build_graph r ≡ ok r'
    → get r'.graph k ≡ some n
    → AreCanonical n
unfolding build_graph
build_graph-AreCanonical r r' k n h found =
    bind_ok (each graph_module (entries r.modules) (record r { graph = made [] })) _ h λ r₁ e h₁.
      sorted-AreCanonical (get r₁.graph k) n
        (sym (get-sort_graph k r₁.graph) ∙ ap (λ x. get x.graph k) (ok-injective h₁) ∙ found)
