-- ===== src/Tests/Store.antt =====
-- Tests of SetFunction, SetType and SetVar.
use abcoder.Base.{◌≡◌, refl, Option, none, some, arith, if◌then◌else◌}
use abcoder.Base.Int.{◌-ℤ◌}
use abcoder.Base.Slices.{index_byte}
use abcoder.Base.Text.{Text, codes, text_eq, text_lt}
use abcoder.Base.Result.{ok, each}
use abcoder.Base.GoMap.{find, assign, put_absent, get, put, or_else}
use abcoder.Uniast.Identity.{Identity, new_identity, full, id_eq}
use abcoder.Uniast.Model.{Function, TypeDecl, Var, Package, Repository}
use abcoder.Uniast.Zero.{bare_function, bare_type, bare_var, new_module}
use abcoder.Uniast.Graph.{
  add_relation, set_node, graph_module, graph_package, graph_function, graph_type, graph_var,
  place_entity, add_dependencies, add_identities, add_receiver, add_var_type, cal_offset,
  found_type, refer, refer_all, relate, relate_all,
}
use abcoder.Uniast.Graph.Build.{build_graph}
use abcoder.Uniast.Graph.Sort.{
  insert_sorted, less, sort_entries, sort_graph, sort_node, sort_relations,
}
use abcoder.Uniast.Relations.{append_new, insert_relation}
use abcoder.Uniast.Node.{file_line, lookup_entity, resolve}
use abcoder.Uniast.Repository.{
  is_external, get_module, get_package, get_function, get_type, get_var, edit_package,
  store_function, store_type, store_var, set_function, set_type, set_var,
}
use abcoder.Uniast.Repository.Store.{get_function-set_function}
use abcoder.Uniast.Repository.Total.{IsReady, set-total}
use abcoder.Tests.Data.{done, f_id, m_module, mod_path, p_package, repo}

abbrev g_id : Identity
g_id = new_identity mod_path (codes "m/p") (codes "G")

abbrev with_g : Repository × Option Function
with_g = done (set_function repo g_id (bare_function g_id)) (repo, none)

with_g_run : set_function repo g_id (bare_function g_id) ≡ ok (with_g.0, with_g.1)
unfolding build_graph each graph_module is_external text_eq new_module graph_package graph_function
    set_node put place_entity get_function get_package get find add_dependencies add_relation assign
    put_absent ◌-ℤ◌ index_byte text_lt insert_sorted less sort_entries sort_graph sort_node
    sort_relations add_identities add_receiver add_var_type cal_offset found_type graph_type
    graph_var refer refer_all relate relate_all full id_eq file_line lookup_entity resolve
    append_new insert_relation edit_package get_module get_type get_var set_function set_type
    set_var store_function store_type store_var
with_g_run = refl

get_function-set_function_example :
    (with_g.1 ≡ some (or_else (get_function repo g_id) (bare_function g_id)))
    × ((j : Identity)
        → (get_function with_g.0 j ≡ (
            if id_eq g_id j
            then some (or_else (get_function repo g_id) (bare_function g_id))
            else get_function repo j))
          × (get_type with_g.0 j ≡ get_type repo j)
          × (get_var with_g.0 j ≡ get_var repo j))
get_function-set_function_example =
    get_function-set_function repo g_id (bare_function g_id) with_g_run

abbrev type_g : Repository × Option TypeDecl
type_g = done (set_type repo g_id (bare_type g_id)) (repo, none)

type_g_run : set_type repo g_id (bare_type g_id) ≡ ok (type_g.0, type_g.1)
unfolding build_graph each graph_module is_external text_eq new_module graph_package graph_function
    set_node put place_entity get_function get_package get find add_dependencies add_relation assign
    put_absent ◌-ℤ◌ index_byte text_lt insert_sorted less sort_entries sort_graph sort_node
    sort_relations add_identities add_receiver add_var_type cal_offset found_type graph_type
    graph_var refer refer_all relate relate_all full id_eq file_line lookup_entity resolve
    append_new insert_relation edit_package get_module get_type get_var set_function set_type
    set_var store_function store_type store_var
type_g_run = refl

abbrev var_g : Repository × Option Var
var_g = done (set_var repo g_id (bare_var g_id)) (repo, none)

var_g_run : set_var repo g_id (bare_var g_id) ≡ ok (var_g.0, var_g.1)
unfolding build_graph each graph_module is_external text_eq new_module graph_package graph_function
    set_node put place_entity get_function get_package get find add_dependencies add_relation assign
    put_absent ◌-ℤ◌ index_byte text_lt insert_sorted less sort_entries sort_graph sort_node
    sort_relations add_identities add_receiver add_var_type cal_offset found_type graph_type
    graph_var refer refer_all relate relate_all full id_eq file_line lookup_entity resolve
    append_new insert_relation edit_package get_module get_type get_var set_function set_type
    set_var store_function store_type store_var
var_g_run = refl

get_package_run : (m p : Text) (pp : Package) → get_package repo m p ≡ some pp → p_package ≡ pp
unfolding get_package get find
get_package_run m p pp h = ground arith

repo_IsReady : IsReady repo
unfolding get_module get find
repo_IsReady = record {
  packages_made = λ m lib h. let e : m_module ≡ lib = ground arith in rw (← e) tt;
  maps_made = λ m p pp h. rw (← get_package_run m p pp h) (tt, tt, tt);
}

module_run : get_module repo mod_path ≡ some m_module
unfolding build_graph each graph_module is_external text_eq new_module graph_package graph_function
    set_node put place_entity get_function get_package get find add_dependencies add_relation assign
    put_absent ◌-ℤ◌ index_byte text_lt insert_sorted less sort_entries sort_graph sort_node
    sort_relations add_identities add_receiver add_var_type cal_offset found_type graph_type
    graph_var refer refer_all relate relate_all full id_eq file_line lookup_entity resolve
    append_new insert_relation edit_package get_module get_type get_var set_function set_type
    set_var store_function store_type store_var
module_run = refl

set-total_example :
    ((out : Repository × Option Function) × (set_function repo f_id (bare_function f_id) ≡ ok out))
    × ((out : Repository × Option TypeDecl) × (set_type repo f_id (bare_type f_id) ≡ ok out))
    × ((out : Repository × Option Var) × (set_var repo f_id (bare_var f_id) ≡ ok out))
set-total_example =
    set-total repo f_id (bare_function f_id) (bare_type f_id) (bare_var f_id) m_module repo_IsReady
      module_run
