-- ===== src/Llm/ReadTools/Packages.antt =====
-- GetPackageStructure of llm/tool/ast_read.go: the files of a package, with the names of their nodes.
use abcoder.Base.{false, List, [], ◌∷◌, ◌++◌, Option, none, some, if◌then◌else◌}
use abcoder.Base.Text.{Text, text_eq}
use abcoder.Base.Result.{Result, ok, ◌>>=◌}
use abcoder.Base.GoMap.{entries, get}
use abcoder.Util.Dedup.{contains}
use abcoder.Uniast.Model.{Function, TypeDecl, Var, Package, Module}
use abcoder.Uniast.Repository.{get_module}
use abcoder.Llm.ReadTools.{
  Repos, Lookup, found, not_found, ambiguous, get_repo_ast, FileStruct, get_file_structure,
}

unfoldable pub add_name : Text → List Text → List Text
unfolding contains text_eq
add_name f fs = if contains text_eq fs f then fs else fs ++ f ∷ []

unfoldable pub function_files : List (Text × Function) → List Text → List Text
unfolding add_name
function_files [] fs = fs
function_files ((k, x) ∷ xs) fs = function_files xs (add_name x.file_line.file fs)

unfoldable pub type_files : List (Text × TypeDecl) → List Text → List Text
unfolding add_name
type_files [] fs = fs
type_files ((k, x) ∷ xs) fs = type_files xs (add_name x.file_line.file fs)

unfoldable pub var_files : List (Text × Var) → List Text → List Text
unfolding add_name
var_files [] fs = fs
var_files ((k, x) ∷ xs) fs = var_files xs (add_name x.file_line.file fs)

-- The files that the entities of a package stand in, in the order of a range loop over them.
unfoldable pub package_files : Package → List Text
unfolding function_files type_files var_files
package_files pkg =
    var_files (entries pkg.vars)
      (type_files (entries pkg.types) (function_files (entries pkg.functions) []))

-- getFileStructure, with its lookup of the repository; an error is `none`.
unfoldable pub looked_up : Repos → Text → Text → Result (Option FileStruct)
unfolding get_repo_ast get_file_structure
looked_up rs repo path = elim (get_repo_ast rs repo) [
  | found k r ↦ get_file_structure r path false
  | not_found k ↦ ok none
  | ambiguous k ks ↦ ok none
]

abbrev pub keep_struct : Option FileStruct → List FileStruct → List FileStruct
keep_struct none rest = rest
keep_struct (some f) rest = f ∷ rest

unfoldable pub file_structs : Repos → Text → List Text → Result (List FileStruct)
unfolding looked_up
file_structs rs repo [] = ok []
file_structs rs repo (f ∷ fs) =
    looked_up rs repo f >>= λ o. file_structs rs repo fs >>= λ rest. ok (keep_struct o rest)

-- The package of one module, and of all.
unfoldable pub module_package : Repos → Text → Text → Option Module → Result (List FileStruct)
unfolding package_files file_structs
module_package rs repo pkg_path none = ok []
module_package rs repo pkg_path (some lib) = elim (get lib.packages pkg_path) [
  | none ↦ ok []
  | some pkg ↦ file_structs rs repo (package_files pkg)
]

unfoldable pub all_packages : Repos → Text → Text → List (Text × Module) → Result (List FileStruct)
unfolding module_package
all_packages rs repo pkg_path [] = ok []
all_packages rs repo pkg_path ((k, lib) ∷ ms) = module_package rs repo pkg_path (some lib) >>= λ fs.
    all_packages rs repo pkg_path ms >>= λ rest. ok (fs ++ rest)

-- The error of the lookup, or, where no file was found, the packages that there are.
pub data PackageError : Type 0 where
  bad_repo : Lookup → PackageError
  no_package : Text → List Text → PackageError

unfoldable pub key_names {ℓ} : {V : Type ℓ} → List (Text × V) → List Text
key_names [] = []
key_names ((k, v) ∷ m) = k ∷ key_names m

abbrev pub package_names : Option Module → List Text
package_names none = []
package_names (some lib) = key_names (entries lib.packages)

abbrev pub answer_files :
    Text → Option Module → List FileStruct → List FileStruct × Option PackageError
answer_files pkg_path lib [] = ([], some (no_package pkg_path (package_names lib)))
answer_files pkg_path lib (f ∷ fs) = (f ∷ fs, none)

unfoldable pub get_package_structure :
    Repos → Text → Text → Text → Result (List FileStruct × Option PackageError)
unfolding get_repo_ast get_module module_package all_packages key_names text_eq
get_package_structure rs name mod_path pkg_path = elim (get_repo_ast rs name) [
  | found k r ↦
      let all = all_packages rs r.name pkg_path (entries r.modules) in
      let one = module_package rs r.name pkg_path (get_module r mod_path) in
      (if text_eq mod_path [] then all else one) >>= λ fs.
      ok (answer_files pkg_path (get_module r mod_path) fs)
  | not_found k ↦ ok ([], some (bad_repo (not_found k)))
  | ambiguous k ks ↦ ok ([], some (bad_repo (ambiguous k ks)))
]
