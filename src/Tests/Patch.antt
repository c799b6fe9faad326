-- ===== src/Tests/Patch.antt =====
-- Tests of patches.
use abcoder.Base.{ℕ, ◌≡◌, refl, List, [], ◌∷◌, ◌++◌, Option, none, some, arith, take, drop}
use abcoder.Base.Int.{pos, ◌-ℤ◌}
use abcoder.Base.Slices.{index_byte}
use abcoder.Base.Text.{Text, codes, text_eq, text_lt}
use abcoder.Base.Result.{ok, each}
use abcoder.Base.GoMap.{find, assign, put_absent, nil_map, get, put}
use abcoder.Uniast.Identity.{Identity, full, id_eq}
use abcoder.Uniast.Language.{golang, func}
use abcoder.Uniast.Zero.{zero_file_line, new_module, new_file}
use abcoder.Uniast.Graph.{
  add_relation, set_node, graph_module, graph_package, graph_function, graph_type, graph_var,
  place_entity, add_dependencies, add_identities, add_receiver, add_var_type, cal_offset,
  found_type, refer, refer_all, relate, relate_all,
}
use abcoder.Uniast.Graph.Build.{get_node, build_graph}
use abcoder.Uniast.Graph.Sort.{
  insert_sorted, less, sort_entries, sort_graph, sort_node, sort_relations,
}
use abcoder.Uniast.Relations.{append_new, insert_relation}
use abcoder.Uniast.Node.{write_node, overwrite, file_line, lookup_entity, resolve, set_file_line}
use abcoder.Uniast.Repository.{
  set_module, is_external, get_module, get_package, get_function, get_type, get_var, edit_package,
  store_function, store_type, store_var, set_function, set_type, set_var,
}
use abcoder.Uniast.Files.{module_file, create_file}
use abcoder.Patch.Splice.{dangling, PatchNode, splice}
use abcoder.Patch.Stable.{starting_at, IsRearranged}
use abcoder.Patch.Correct.{replaced, splice-replaced}
use abcoder.Patch.Shrink.{splice_shrunk}
use abcoder.Patch.Patcher.{
  Request, Patcher, PatchError, patch, ensure_node, ensure_module, ensure_file, add_deps, depends,
  settle_line, writer_language, keep_file, store_file, add_imports, finish, finish_patch,
  write_file, add_patch, placed,
}
use abcoder.Patch.Record.{Recorded, patch-Recorded}
use abcoder.Uniast.Model.{Import}
use abcoder.Uniast.Zero.{new_import}
use abcoder.Tests.Data.{done, f_id, one_node, v_id}

abbrev pub patch_at : ℕ → ℕ → Text → PatchNode
patch_at s e c = record {
  identity = f_id;
  file_line = record zero_file_line { start_offset = pos s; end_offset = pos e };
  codes = c;
  file = dangling (new_file (codes "a"));
}

-- Two patches that came in the wrong order.
abbrev came : List PatchNode
came = patch_at 4 5 (codes "ZZZ") ∷ patch_at 1 3 (codes "XY") ∷ []

abbrev in_order : List PatchNode
in_order = patch_at 1 3 (codes "XY") ∷ patch_at 4 5 (codes "ZZZ") ∷ []

came-IsRearranged : IsRearranged came in_order
unfolding starting_at
came-IsRearranged k = ground arith

splice-replaced_example : splice (codes "abcdef") came ≡ ok (replaced 0 (codes "abcdef") in_order)
splice-replaced_example =
    splice-replaced (codes "abcdef") came in_order came-IsRearranged
      (
        refl,
        refl,
        omega arith,
        omega arith,
        omega arith,
        (refl, refl, omega arith, omega arith, omega arith, omega arith),
      )
      (omega arith, (omega arith, tt))

splice_shrunk_example :
    splice (codes "abcdefgh") (patch_at 0 6 [] ∷ patch_at 7 8 (codes "Z") ∷ [])
    ≡ ok ((take 0 (codes "abcdefgh") ++ ([] ++ drop 6 (codes "abcdefgh"))) ++ (b'\n' ∷ codes "Z"))
splice_shrunk_example =
    splice_shrunk (codes "abcdefgh") (patch_at 0 6 []) (patch_at 7 8 (codes "Z"))
      (
        refl,
        refl,
        omega arith,
        omega arith,
        omega arith,
        (refl, refl, omega arith, omega arith, omega arith, omega arith),
      )
      (omega arith)

abbrev to_import : Identity → Option Import
to_import id = some (new_import none id.pkg_path)

abbrev patcher : Patcher
patcher = record {
  repo_dir = codes "in";
  out_dir = codes "out";
  default_language = golang;
  repo = one_node;
  patches = nil_map;
}

abbrev request : Request
request = record {
  id = f_id;
  codes = codes "func F() {}";
  file = codes "a.go";
  node_type = func;
  added_deps = v_id ∷ [];
}

abbrev patched : Patcher × Option PatchError
patched = done (patch to_import patcher request) (patcher, none)

patched_run : patch to_import patcher request ≡ ok (patched.0, patched.1)
unfolding build_graph each graph_module is_external text_eq new_module graph_package graph_function
    set_node put place_entity get_function get_package get find add_dependencies add_relation assign
    put_absent ◌-ℤ◌ index_byte text_lt insert_sorted less sort_entries sort_graph sort_node
    sort_relations add_identities add_receiver add_var_type cal_offset found_type graph_type
    graph_var refer refer_all relate relate_all full id_eq file_line lookup_entity resolve
    append_new insert_relation edit_package get_module get_type get_var set_function set_type
    set_var store_function store_type store_var patch ensure_node ensure_module ensure_file add_deps
    depends settle_line writer_language keep_file store_file add_imports finish finish_patch
    write_file add_patch placed set_file_line module_file create_file get_node set_module write_node
    overwrite
patched_run = refl

patch-Recorded_example : Recorded patcher request patched.0 patched.1
patch-Recorded_example = patch-Recorded to_import patcher request patched.0 patched.1 patched_run
