-- ===== src/Uniast/Repository.antt =====
-- The methods of Repository, Module and Package in lang/uniast/ast.go and lang/uniast/node.go that
-- look entities up and store them. Packages and modules are held by pointers in maps: an update
-- through a pointer writes the map's entry. No two entries share a pointer.
pub mod Entities
pub mod Store
pub mod Total
use abcoder.Base.{
  ◌≡◌, Bool, true, false, ◌&&◌, not, List, [], ◌∷◌, Option, none, some, if◌then◌else◌,
}
use abcoder.Base.Text.{Text, codes, text_eq}
use abcoder.Base.Result.{Result, ok, panic, deref, ◌>>=◌}
use abcoder.Base.GoMap.{
  GoMap, nil_map, made, entries, get, put, put_absent, and_then, or_else, assign,
}
use abcoder.Uniast.Identity.{Identity}
use abcoder.Uniast.Model.{Function, TypeDecl, Var, File, Package, Module, Repository}
use abcoder.Uniast.Zero.{new_package}

unfoldable pub is_external : Module → Bool
is_external m = text_eq m.dir []

unfoldable pub keep_internal : List (Text × Module) → List (Text × Module)
keep_internal [] = []
keep_internal ((k, m) ∷ ms) = if is_external m then keep_internal ms else (k, m) ∷ keep_internal ms

unfoldable pub internal_modules : Repository → List (Text × Module)
unfolding keep_internal
internal_modules r = keep_internal (entries r.modules)

unfoldable pub get_module : Repository → Text → Option Module
get_module r m = get r.modules m

unfoldable pub get_package : Repository → Text → Text → Option Package
unfolding get_module
get_package r m p = and_then (get_module r m) (λ lib. get lib.packages p)

unfoldable pub get_function : Repository → Identity → Option Function
get_function r id =
    and_then (get_package r id.mod_path id.pkg_path) (λ pkg. get pkg.functions id.name)

unfoldable pub get_type : Repository → Identity → Option TypeDecl
get_type r id = and_then (get_package r id.mod_path id.pkg_path) (λ pkg. get pkg.types id.name)

unfoldable pub get_var : Repository → Identity → Option Var
get_var r id = and_then (get_package r id.mod_path id.pkg_path) (λ pkg. get pkg.vars id.name)

-- The part that SetFunction, SetType and SetVar share: the module must be there, the package is
-- created if it is not, and then it is edited through its pointer.
unfoldable pub edit_package : Repository → Identity → (Package → Result Package) → Result Repository
edit_package r id edit = do
  lib ← deref (get r.modules id.mod_path)
  pp ← edit (or_else (get lib.packages id.pkg_path) (new_package id.pkg_path))
  pkgs ← put lib.packages id.pkg_path pp
  mods ← put r.modules id.mod_path (record lib { packages = pkgs })
  ok (record r { modules = mods })

unfoldable pub store_function : Text → Function → Package → Result Package
store_function n f pp = do
  fs ← put_absent pp.functions n f
  ok (record pp { functions = fs; is_main = if text_eq n (codes "main") then true else pp.is_main })

unfoldable pub set_function :
    Repository → Identity → Function → Result (Repository × Option Function)
set_function r id f = do
  r' ← edit_package r id (store_function id.name f)
  ok (r', get_function r' id)

unfoldable pub store_type : Text → TypeDecl → Package → Result Package
store_type n t pp = do ts ← put_absent pp.types n t; ok (record pp { types = ts })

unfoldable pub set_type : Repository → Identity → TypeDecl → Result (Repository × Option TypeDecl)
set_type r id t = do r' ← edit_package r id (store_type id.name t); ok (r', get_type r' id)

unfoldable pub store_var : Text → Var → Package → Result Package
store_var n v pp = do vs ← put_absent pp.vars n v; ok (record pp { vars = vs })

unfoldable pub set_var : Repository → Identity → Var → Result (Repository × Option Var)
set_var r id v = do r' ← edit_package r id (store_var id.name v); ok (r', get_var r' id)

-- SetModule makes the map of modules if it is nil.
unfoldable pub set_module : Repository → Text → Module → Repository
set_module r path m = record r { modules = made (assign path m (entries r.modules)) }
