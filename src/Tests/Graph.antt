-- ===== src/Tests/Graph.antt =====
-- Tests of the graph of nodes.
use abcoder.Base.{◌≡◌, refl, true, List, [], ◌∷◌, some, arith}
use abcoder.Base.Int.{pos, ◌-ℤ◌}
use abcoder.Base.Slices.{index_byte}
use abcoder.Base.Text.{text_eq, text_eq_iff, text_lt}
use abcoder.Base.Result.{ok, each}
use abcoder.Base.GoMap.{find, assign, put_absent, get, put, or_else}
use abcoder.Uniast.Identity.{full, id_eq}
use abcoder.Uniast.Model.{Node, Relation, Repository, dependency, implement}
use abcoder.Uniast.Zero.{zero_file_line, new_module}
use abcoder.Uniast.Graph.{
  add_relation, set_node, graph_module, graph_package, graph_function, graph_type, graph_var,
  place_entity, add_dependencies, add_identities, add_receiver, add_var_type, cal_offset,
  found_type, refer, refer_all, relate, relate_all,
}
use abcoder.Uniast.Graph.Edges.{
  IsKeyed, Adds, depends_on, refers_to, edge_mem, edges_of, add_relation-Adds,
}
use abcoder.Uniast.Graph.Build.{build_graph, declared_edges}
use abcoder.Uniast.Graph.Declared.{build_graph_edges}
use abcoder.Uniast.Graph.Frame.{IsHome, build_graph-total}
use abcoder.Uniast.Graph.Sort.{
  insert_sorted, less, sort_entries, sort_graph, sort_node, sort_relations,
}
use abcoder.Uniast.Graph.Sort.Canonical.{IsCanonical, sort_relations-IsCanonical}
use abcoder.Uniast.Graph.Ordered.{AreCanonical, build_graph-AreCanonical}
use mathlib.Core.List.{Perm}
use abcoder.Uniast.Relations.{append_new, insert_relation}
use abcoder.Uniast.Node.{file_line, lookup_entity, resolve}
use abcoder.Uniast.Repository.{
  is_external, get_module, get_package, get_function, get_type, get_var, edit_package,
  store_function, store_type, store_var, set_function, set_type, set_var,
}
use abcoder.Uniast.Language.{func}
use abcoder.Uniast.Zero.{bare_relation, new_node}
use abcoder.Tests.Data.{done, f_id, one_node, repo, t_id}

abbrev graphed : Repository
graphed = done (build_graph repo) repo

graphed_run : build_graph repo ≡ ok graphed
unfolding build_graph each graph_module is_external text_eq new_module graph_package graph_function
    set_node put place_entity get_function get_package get find add_dependencies add_relation assign
    put_absent ◌-ℤ◌ index_byte text_lt insert_sorted less sort_entries sort_graph sort_node
    sort_relations add_identities add_receiver add_var_type cal_offset found_type graph_type
    graph_var refer refer_all relate relate_all full id_eq file_line lookup_entity resolve
    append_new insert_relation edit_package get_module get_type get_var set_function set_type
    set_var store_function store_type store_var
graphed_run = refl

build_graph_edges_example :
    (depends_on (full t_id) (get graphed.graph (full f_id))
      ≡ edge_mem (full f_id) (full t_id) (declared_edges repo))
    × (refers_to (full f_id) (get graphed.graph (full t_id))
        ≡ edge_mem (full f_id) (full t_id) (declared_edges repo))
build_graph_edges_example = build_graph_edges repo graphed graphed_run (full f_id) (full t_id)

repo_IsHome : IsHome repo
unfolding build_graph each graph_module is_external text_eq new_module graph_package graph_function
    set_node put place_entity get_function get_package get find add_dependencies add_relation assign
    put_absent ◌-ℤ◌ index_byte text_lt insert_sorted less sort_entries sort_graph sort_node
    sort_relations add_identities add_receiver add_var_type cal_offset found_type graph_type
    graph_var refer refer_all relate relate_all full id_eq file_line lookup_entity resolve
    append_new insert_relation edit_package get_module get_type get_var set_function set_type
    set_var store_function store_type store_var
repo_IsHome = (λ inside. ((((_, refl), tt), ((_, refl), tt), ((_, refl), tt)), tt), tt)

build_graph-total_example :
    (r' : Repository) × (build_graph repo ≡ ok r') × (r'.modules ≡ repo.modules)
build_graph-total_example = build_graph-total repo repo_IsHome

abbrev related : Repository
related = done (add_relation one_node (full f_id) t_id zero_file_line (dependency ∷ [])) one_node

related_run : add_relation one_node (full f_id) t_id zero_file_line (dependency ∷ []) ≡ ok related
unfolding build_graph each graph_module is_external text_eq new_module graph_package graph_function
    set_node put place_entity get_function get_package get find add_dependencies add_relation assign
    put_absent ◌-ℤ◌ index_byte text_lt insert_sorted less sort_entries sort_graph sort_node
    sort_relations add_identities add_receiver add_var_type cal_offset found_type graph_type
    graph_var refer refer_all relate relate_all full id_eq file_line lookup_entity resolve
    append_new insert_relation edit_package get_module get_type get_var set_function set_type
    set_var store_function store_type store_var
related_run = refl

one_node_IsKeyed : IsKeyed one_node.graph
unfolding get find
one_node_IsKeyed = λ k n h. ground (arith, text_eq_iff (full f_id) k)

add_relation-Adds_example :
    Adds one_node.graph related.graph (edges_of dependency (full f_id) (full t_id))
add_relation-Adds_example =
    add_relation-Adds one_node (full f_id) t_id zero_file_line dependency one_node_IsKeyed
      related_run

abbrev two_relations : List Relation
two_relations = bare_relation dependency t_id (pos 2) ∷ bare_relation implement t_id (pos 1) ∷ []

sort_relations-IsCanonical_example :
    Perm two_relations (sort_relations two_relations) × IsCanonical (sort_relations two_relations)
sort_relations-IsCanonical_example = sort_relations-IsCanonical two_relations

abbrev f_node : Node
f_node = or_else (get graphed.graph (full f_id)) (new_node f_id func true)

f_node_run : get graphed.graph (full f_id) ≡ some f_node
unfolding build_graph each graph_module is_external text_eq new_module graph_package graph_function
    set_node put place_entity get_function get_package get find add_dependencies add_relation assign
    put_absent ◌-ℤ◌ index_byte text_lt insert_sorted less sort_entries sort_graph sort_node
    sort_relations add_identities add_receiver add_var_type cal_offset found_type graph_type
    graph_var refer refer_all relate relate_all full id_eq file_line lookup_entity resolve
    append_new insert_relation edit_package get_module get_type get_var set_function set_type
    set_var store_function store_type store_var
f_node_run = refl

build_graph-AreCanonical_example : AreCanonical f_node
build_graph-AreCanonical_example =
    build_graph-AreCanonical repo graphed (full f_id) f_node graphed_run f_node_run
