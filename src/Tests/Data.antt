-- ===== src/Tests/Data.antt =====
-- The small repository that the tests run on.
use abcoder.Base.{true, [], ◌∷◌, some}
use abcoder.Base.Text.{Text, codes}
use abcoder.Base.Result.{Result, ok, panic}
use abcoder.Base.GoMap.{made}
use abcoder.Uniast.Identity.{Identity, new_identity, full}
use abcoder.Uniast.Model.{Function, Var, Package, Module, Repository, Node}
use abcoder.Uniast.Language.{golang, func}
use abcoder.Uniast.Zero.{
  zero_file_line, bare_function, bare_type, bare_var, new_dependency, new_package, new_module,
  new_repository, new_node,
}

abbrev pub mod_path : Text
mod_path = codes "m"

abbrev pub f_id : Identity
f_id = new_identity mod_path (codes "m/p") (codes "F")

abbrev pub t_id : Identity
t_id = new_identity mod_path (codes "m/p") (codes "T")

abbrev pub v_id : Identity
v_id = new_identity mod_path (codes "m/p") (codes "V")

abbrev pub f_decl : Function
f_decl = record (bare_function f_id) { types = new_dependency t_id zero_file_line ∷ [] }

abbrev pub v_decl : Var
v_decl = record (bare_var v_id) { var_type = some t_id }

abbrev pub p_package : Package
p_package = record (new_package (codes "m/p")) {
  functions = made ((codes "F", f_decl) ∷ []);
  types = made ((codes "T", bare_type t_id) ∷ []);
  vars = made ((codes "V", v_decl) ∷ []);
}

abbrev pub m_module : Module
m_module = record (new_module mod_path (codes "dir") golang) {
  packages = made ((codes "m/p", p_package) ∷ []);
}

abbrev pub repo : Repository
repo = record (new_repository (codes "r")) { modules = made ((mod_path, m_module) ∷ []) }

abbrev pub done {ℓ} : {A : Type ℓ} → Result A → A → A
done (ok a) d = a
done panic d = d

abbrev pub one_node : Repository
one_node = record repo { graph = made ((full f_id, new_node f_id func true) ∷ []) }

abbrev pub f_node : Node
f_node = new_node f_id func true
