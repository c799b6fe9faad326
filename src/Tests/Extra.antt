-- ===== src/Tests/Extra.antt =====
-- Tests of the extra information of entities.
use abcoder.Base.{◌≡◌, refl, some, if◌then◌else◌}
use abcoder.Base.Text.{codes, text_eq}
use abcoder.Base.Result.{ok}
use abcoder.Base.GoMap.{find, assign, get, put}
use abcoder.Uniast.Model.{Dependency, Function, TypeDecl, Var}
use abcoder.Uniast.Zero.{zero_file_line, bare_type, new_dependency}
use abcoder.Uniast.Extra.{
  function_set_extra, type_set_extra, var_set_extra, dependency_set_extra, function_get_extra,
  type_get_extra, var_get_extra, dependency_get_extra, write_extra, get_extra-set_extra,
}
use abcoder.Uniast.Model.{str}
use abcoder.Tests.Data.{done, f_decl, t_id, v_decl}

abbrev function_x : Function
function_x = done (function_set_extra f_decl (codes "k") (str (codes "x"))) f_decl

abbrev type_x : TypeDecl
type_x = done (type_set_extra (bare_type t_id) (codes "k") (str (codes "x"))) (bare_type t_id)

abbrev var_x : Var
var_x = done (var_set_extra v_decl (codes "k") (str (codes "x"))) v_decl

abbrev dependency_x : Dependency
dependency_x =
    done (dependency_set_extra (new_dependency t_id zero_file_line) (codes "k") (str (codes "x")))
      (new_dependency t_id zero_file_line)

function_x_run : function_set_extra f_decl (codes "k") (str (codes "x")) ≡ ok function_x
unfolding function_set_extra type_set_extra var_set_extra dependency_set_extra write_extra put get
    find assign text_eq
function_x_run = refl

type_x_run : type_set_extra (bare_type t_id) (codes "k") (str (codes "x")) ≡ ok type_x
unfolding function_set_extra type_set_extra var_set_extra dependency_set_extra write_extra put get
    find assign text_eq
type_x_run = refl

var_x_run : var_set_extra v_decl (codes "k") (str (codes "x")) ≡ ok var_x
unfolding function_set_extra type_set_extra var_set_extra dependency_set_extra write_extra put get
    find assign text_eq
var_x_run = refl

dependency_x_run :
    dependency_set_extra (new_dependency t_id zero_file_line) (codes "k") (str (codes "x"))
    ≡ ok dependency_x
unfolding function_set_extra type_set_extra var_set_extra dependency_set_extra write_extra put get
    find assign text_eq
dependency_x_run = refl

get_extra-set_extra_example :
    (function_get_extra function_x (codes "j") ≡ (
      if text_eq (codes "k") (codes "j")
      then some (str (codes "x"))
      else function_get_extra f_decl (codes "j")))
    × (type_get_extra type_x (codes "j") ≡ (
        if text_eq (codes "k") (codes "j")
        then some (str (codes "x"))
        else type_get_extra (bare_type t_id) (codes "j")))
    × (var_get_extra var_x (codes "j") ≡ (
        if text_eq (codes "k") (codes "j")
        then some (str (codes "x"))
        else var_get_extra v_decl (codes "j")))
    × (dependency_get_extra dependency_x (codes "j") ≡ (
        if text_eq (codes "k") (codes "j")
        then some (str (codes "x"))
        else dependency_get_extra (new_dependency t_id zero_file_line) (codes "j")))
get_extra-set_extra_example =
    get_extra-set_extra (codes "k") (codes "j") (str (codes "x")) f_decl (bare_type t_id) v_decl
      (new_dependency t_id zero_file_line) function_x_run type_x_run var_x_run dependency_x_run
