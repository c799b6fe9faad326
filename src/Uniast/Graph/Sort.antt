-- ===== src/Uniast/Graph/Sort.antt =====
-- The canonical order of relations at the end of BuildGraph. sort.Slice is modelled by insertion.
pub mod Canonical
use abcoder.Base.{◌≡◌, refl, Bool, true, false, ◌||◌, List, [], ◌∷◌, arith, if◌then◌else◌}
use abcoder.Base.Int.{ltb_ℤ}
use abcoder.Base.Text.{Text, codes, text_eq, text_lt}
use abcoder.Base.GoMap.{GoMap, nil_map, made, get, find}
use abcoder.Uniast.Identity.{full}
use abcoder.Uniast.Model.{RelationKind, dependency, implement, inherit, group, Relation, Node}
use abcoder.Uniast.Node.{option_map}
use abcoder.Uniast.Relations.{targets}

abbrev pub kind_name : RelationKind → Text
kind_name dependency = codes "Dependency"
kind_name implement = codes "Implement"
kind_name inherit = codes "Inherit"
kind_name group = codes "Group"

-- The comparison: by the printed identity, then by the line, then by the kind.
abbrev line_or_kind : Relation → Relation → Bool
line_or_kind x y =
    if ltb_ℤ x.line y.line
    then true
    else if ltb_ℤ y.line x.line
    then false
    else text_lt (kind_name x.kind) (kind_name y.kind)

unfoldable pub less : Relation → Relation → Bool
less x y =
    if text_eq (full x.identity) (full y.identity)
    then line_or_kind x y
    else text_lt (full x.identity) (full y.identity)

unfoldable pub insert_sorted : Relation → List Relation → List Relation
insert_sorted x [] = x ∷ []
insert_sorted x (y ∷ ys) = if less y x then y ∷ insert_sorted x ys else x ∷ y ∷ ys

unfoldable pub sort_relations : List Relation → List Relation
unfolding insert_sorted
sort_relations [] = []
sort_relations (x ∷ xs) = insert_sorted x (sort_relations xs)

unfoldable pub sort_node : Node → Node
unfolding sort_relations
sort_node n = record n {
  dependencies = sort_relations n.dependencies;
  references = sort_relations n.references;
  implements = sort_relations n.implements;
  inherits = sort_relations n.inherits;
  groups = sort_relations n.groups;
}

unfoldable pub sort_entries : List (Text × Node) → List (Text × Node)
unfolding sort_node
sort_entries [] = []
sort_entries ((k, n) ∷ es) = (k, sort_node n) ∷ sort_entries es

unfoldable pub sort_graph : GoMap Node → GoMap Node
unfolding sort_entries
sort_graph nil_map = nil_map
sort_graph (made es) = made (sort_entries es)

targets-insert_sorted :
    (k : Text) (x : Relation) (ys : List Relation)
    → targets k (insert_sorted x ys) ≡ (text_eq (full x.identity) k || targets k ys)
unfolding targets insert_sorted
targets-insert_sorted k x [] = refl
targets-insert_sorted k x (y ∷ ys) = ground (arith, targets-insert_sorted k x ys)

-- Sorting keeps the targets.
pub targets-sort_relations :
    (k : Text) (xs : List Relation) → targets k (sort_relations xs) ≡ targets k xs
unfolding targets sort_relations
targets-sort_relations k [] = refl
targets-sort_relations k (x ∷ xs) =
    ground (arith, targets-insert_sorted k x (sort_relations xs), targets-sort_relations k xs)

find-sort_entries :
    (k : Text) (es : List (Text × Node))
    → find k (sort_entries es) ≡ option_map sort_node (find k es)
unfolding find sort_entries
find-sort_entries k [] = refl
find-sort_entries k ((j, n) ∷ es) = ground (arith, find-sort_entries k es)

pub get-sort_graph :
    (k : Text) (g : GoMap Node) → get (sort_graph g) k ≡ option_map sort_node (get g k)
unfolding get sort_graph
get-sort_graph k nil_map = unfold find in refl
get-sort_graph k (made es) = find-sort_entries k es
