-- ===== src/Tests/ReadTools.antt =====
-- Runs of the agent's read tools on the small repository.
use abcoder.Base.{◌≡◌, ◌≢◌, refl, sym, true, false, List, [], ◌∷◌, some, map}
use abcoder.Base.Text.{codes, text_eq, text_eq_iff}
use abcoder.Base.Result.{ok}
use abcoder.Base.GoMap.{find, get}
use abcoder.Base.Path.{path_base}
use abcoder.Base.Search.{ends_with}
use abcoder.Uniast.Identity.{full}
use abcoder.Llm.ReadTools.{written, removed, watch, found, get_repo_ast, NodeStruct, ast_nodes}
use abcoder.Llm.ReadTools.Watch.{watch-removed}
use abcoder.Llm.ReadTools.Nodes.{identity_of, ast_nodes-IsKnown}
use abcoder.Tests.Data.{one_node, f_id, f_node}

differ : true ≢ false
differ h = cc

file_is_no_name : path_base (codes "d/r.json") ≢ one_node.name
unfolding path_base text_eq
file_is_no_name h = differ (sym ((text_eq_iff (path_base (codes "d/r.json")) one_node.name).1 h))

watch-removed_example :
    get_repo_ast
      (watch (removed (codes "d/r.json")) (watch (written (codes "d/r.json") (some one_node)) []))
      (codes "r")
    ≡ found (codes "r") one_node
unfolding ends_with text_eq
watch-removed_example = watch-removed [] (codes "d/r.json") one_node refl file_is_no_name

ast_nodes-IsKnown_example :
    (ns : List NodeStruct) × (ast_nodes one_node (f_id ∷ f_id ∷ []) ≡ ok (one_node, ns))
    × (map identity_of ns ≡ f_id ∷ f_id ∷ [])
unfolding get find full text_eq
ast_nodes-IsKnown_example =
    ast_nodes-IsKnown one_node (f_id ∷ f_id ∷ []) refl
      ((f_node, refl, refl), ((f_node, refl, refl), tt))
