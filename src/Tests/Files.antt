-- ===== src/Tests/Files.antt =====
-- Tests of the files of a module.
use abcoder.Base.{◌≡◌, refl, [], ◌∷◌, none, some}
use abcoder.Base.Slices.{index_byte}
use abcoder.Base.Text.{codes, text_eq}
use abcoder.Base.GoMap.{find, nil_map, made, get}
use abcoder.Uniast.Model.{File, Module, Repository}
use abcoder.Uniast.Zero.{new_module, new_file}
use abcoder.Uniast.Repository.{is_external}
use abcoder.Uniast.Files.{
  search_file, packaged_file, module_file, create_file, get_file, IsSource, module_file-create_file,
  get_file-IsSource,
}
use abcoder.Tests.Data.{m_module, mod_path, repo}

abbrev nil_module : Module
nil_module = record m_module { files = nil_map }

-- What is created in a nil map is lost.
module_file-create_file_example :
    module_file (create_file nil_module (codes "a") (new_file (codes "a"))) (codes "a") ≡ none
module_file-create_file_example =
    module_file-create_file nil_module (codes "a") (new_file (codes "a")) (codes "a")

abbrev a_file : File
a_file = record (new_file (codes "a")) { pkg = codes "p" }

abbrev file_module : Module
file_module = record m_module { files = made ((codes "a", a_file) ∷ []) }

abbrev file_repo : Repository
file_repo = record repo { modules = made ((mod_path, file_module) ∷ []) }

file_run : get_file file_repo (codes "a") ≡ some (a_file, file_module)
unfolding get_file search_file packaged_file module_file get find is_external text_eq new_module
    index_byte
file_run = refl

get_file-IsSource_example : IsSource (codes "a") a_file file_module
get_file-IsSource_example = get_file-IsSource file_repo (codes "a") a_file file_module file_run

no_file_run : get_file file_repo (codes "b") ≡ none
unfolding get_file search_file packaged_file module_file get find is_external text_eq new_module
    index_byte
no_file_run = refl
