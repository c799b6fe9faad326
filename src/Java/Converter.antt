-- ===== src/Java/Converter.antt =====
-- lang/java/ipc/converter.go. The files and the module that the converter makes are shared by its caches
-- and its repository, so they stand in a heap: `files` and `modules` are what the pointers lead to, and a
-- pointer is a place in them. Class infos are never written to, so they are values.
pub mod Filed
pub mod Closed
pub mod Files
pub mod State
pub mod Refine
pub mod Converted
use abcoder.Base.{
  ℕ, suc, ◌+◌, Bool, true, false, ◌&&◌, ◌||◌, not, List, [], ◌∷◌, ◌++◌, Option, none, some, ◌==◌,
  if◌then◌else◌, length, drop, get_elem?, set,
}
use abcoder.Base.Int.{pos}
use abcoder.Base.Text.{Text, text_eq, codes}
use abcoder.Base.Result.{Result, ok, panic, deref, each, ◌>>=◌}
use abcoder.Base.GoMap.{GoMap, made, find, assign, and_then}
use abcoder.Base.Path.{path_dir}
use abcoder.Base.Search.{index_text, replace_byte}
use abcoder.Uniast.Language.{java}
use abcoder.Uniast.Model.{File, Module, Repository}
use abcoder.Uniast.Zero.{new_repository, new_module, new_file}
use abcoder.Java.Messages.{
  FileInfo, ClassInfo, SourceInfo, DependencyInfo, AnalyzeResponse, get_file_info, get_class_info,
  payload_file_info, payload_class_info, source_unknown, source_local, source_maven,
  source_external_jar, source_jdk,
}

-- A module on the heap: what it holds but for its files, and the pointers of these.
pub record ModuleObject : Type 0 where
  pub module_data : Module
  pub module_files : List (Text × ℕ)

pub record Converter : Type 0 where
  pub repo : Repository
  pub repo_modules : List (Text × ℕ)
  pub repo_path : Text
  pub module_name : Text
  pub file_cache : List (Text × ℕ)
  pub module_cache : List (Text × ℕ)
  pub jdk_class_cache : List (Text × ClassInfo)
  pub local_class_cache : List (Text × ClassInfo)
  pub unknown_class_cache : List (Text × ClassInfo)
  pub third_part_class_cache : List (Text × ClassInfo)
  pub files : List File
  pub modules : List ModuleObject

-- What the caller sees: the repository with its pointers followed. A pointer to nothing has no view.
unfoldable pub files_at : List File → List (Text × ℕ) → Option (List (Text × File))
files_at heap [] = some []
files_at heap ((path, at) ∷ rest) =
    and_then (get_elem? heap at) λ f. and_then (files_at heap rest) λ more. some ((path, f) ∷ more)

unfoldable pub modules_at : Converter → List (Text × ℕ) → Option (List (Text × Module))
unfolding files_at
modules_at c [] = some []
modules_at c ((name, at) ∷ rest) = and_then (get_elem? c.modules at) λ o.
    and_then (files_at c.files o.module_files) λ fs.
      and_then (modules_at c rest)
        λ more. some ((name, record o.module_data { files = made fs }) ∷ more)

unfoldable pub repository : Converter → Option Repository
unfolding modules_at
repository c =
    and_then (modules_at c c.repo_modules) λ ms. some (record c.repo { modules = made ms })

-- After the lookup in the cache of modules, and of files.
abbrev pub module_or_new : Text → Converter → Option ℕ → Converter × ℕ
module_or_new name c (some at) = (c, at)
module_or_new name c none = (
  record c {
    modules =
        c.modules ++ (record { module_data = new_module name [] java; module_files = [] }) ∷ [];
    module_cache = assign name (length c.modules) c.module_cache;
    repo_modules = assign name (length c.modules) c.repo_modules;
  },
  length c.modules,
)

unfoldable pub get_or_create_module : Text → Converter → Converter × ℕ
get_or_create_module name c = module_or_new name c (find name c.module_cache)

-- `mod.Files[path] = file`, with the pointer of the file.
abbrev pub linked : Text → ℕ → ℕ → Converter → ModuleObject → Result Converter
linked path file at c o =
    let o' : ModuleObject = record o { module_files = assign path file o.module_files } in
    ok (record c { modules = set c.modules at o' })

unfoldable pub add_module_file : Text → ℕ → ℕ → Converter → Result Converter
add_module_file path file at c = deref (get_elem? c.modules at) >>= linked path file at c

abbrev pub alloc_file : Text → Converter → Converter
alloc_file path c = record c {
  files = c.files ++ new_file path ∷ [];
  file_cache = assign path (length c.files) c.file_cache;
}

unfoldable pub create_file : Text → Converter → Result (Converter × ℕ)
unfolding get_or_create_module add_module_file
create_file path c = do
  let (c', at) = get_or_create_module c.module_name (alloc_file path c)
  c2 ← add_module_file path (length c.files) at c'
  ok (c2, length c.files)

abbrev pub file_or_new : Text → Converter → Option ℕ → Result (Converter × ℕ)
file_or_new path c (some at) = ok (c, at)
file_or_new path c none = create_file path c

unfoldable pub get_or_create_file : Text → Converter → Result (Converter × ℕ)
unfolding create_file
get_or_create_file path c = file_or_new path c (find path c.file_cache)

unfoldable pub extract_package_from_path : Text → Text
unfolding path_dir index_text replace_byte
extract_package_from_path path =
    let dir = path_dir path in
    elim (index_text (codes "src/main/java/") dir) [
      | some i ↦ replace_byte b'/' (codes ".") (drop (i + 14) dir)
      | none ↦ elim (index_text (codes "src/") dir) [
        | some i ↦ replace_byte b'/' (codes ".") (drop (i + 4) dir)
        | none ↦ replace_byte b'/' (codes ".") dir
      ]
    ]

-- `file.Package = ...`.
abbrev pub packaged : Text → Converter → ℕ → File → Result Converter
packaged pkg c at f =
    let f' : File = record f { pkg = pkg } in ok (record c { files = set c.files at f' })

abbrev pub set_file_package : Text → Converter × ℕ → Result Converter
set_file_package pkg (c, at) = deref (get_elem? c.files at) >>= packaged pkg c at

unfoldable pub process_file_info : Option FileInfo → Converter → Result Converter
unfolding get_or_create_file extract_package_from_path
process_file_info none c = ok c
process_file_info (some info) c =
    get_or_create_file info.file_path c
    >>= set_file_package (extract_package_from_path info.file_path)

-- The caches that putCache chooses from; `no_cache` is its default branch.
pub data Cache : Type 0 where
  jdk_cache local_cache unknown_cache third_part_cache no_cache : Cache

unfoldable pub is_third_part : Text → Bool
unfolding text_eq
is_third_part source = text_eq source source_maven || text_eq source source_external_jar

unfoldable pub cache_of : Text → Cache
unfolding text_eq is_third_part
cache_of source =
    if text_eq source source_jdk
    then jdk_cache
    else if text_eq source source_local
    then local_cache
    else if text_eq source source_unknown
    then unknown_cache
    else if is_third_part source
    then third_part_cache
    else no_cache

abbrev pub store_class : Cache → ClassInfo → Converter → Converter
store_class jdk_cache i c = record c { jdk_class_cache = assign i.class_name i c.jdk_class_cache }
store_class local_cache i c = record c {
  local_class_cache = assign i.class_name i c.local_class_cache;
}
store_class unknown_cache i c = record c {
  unknown_class_cache = assign i.class_name i c.unknown_class_cache;
}
store_class third_part_cache i c = record c {
  third_part_class_cache = assign i.class_name i c.third_part_class_cache;
}
store_class no_cache i c = c

-- A class without a source panics.
unfoldable pub put_cache : ClassInfo → Converter → Result Converter
unfolding cache_of
put_cache info c = do src ← deref info.source; ok (store_class (cache_of src.source_type) info c)

unfoldable pub process_class_info : Option ClassInfo → Converter → Result Converter
unfolding put_cache
process_class_info none c = ok c
process_class_info (some info) c = put_cache info c

-- The other kinds of payload leave the converter as it is.
unfoldable pub process_response : Option AnalyzeResponse → Converter → Result Converter
unfolding process_file_info process_class_info text_eq
process_response none c = ok c
process_response (some r) c =
    if text_eq r.payload_type payload_file_info
    then process_file_info (get_file_info r) c
    else if text_eq r.payload_type payload_class_info
    then process_class_info (get_class_info r) c
    else ok c

abbrev pub empty_converter : Text → Text → Converter
empty_converter repo_path module_name = record {
  repo = record (new_repository module_name) { path = repo_path };
  repo_modules = [];
  repo_path = repo_path;
  module_name = module_name;
  file_cache = [];
  module_cache = [];
  jdk_class_cache = [];
  local_class_cache = [];
  unknown_class_cache = [];
  third_part_class_cache = [];
  files = [];
  modules = [];
}

unfoldable pub new_converter : Text → Text → Converter
unfolding get_or_create_module
new_converter repo_path module_name =
    (get_or_create_module module_name (empty_converter repo_path module_name)).0

-- The class that stands for a dependency.
abbrev pub class_point : Text → Text → ClassInfo
class_point name source = record {
  class_name = name;
  package_name = [];
  file_path = [];
  class_type = [];
  source = some (record { source_type = source; maven_coordinate = []; jar_path = []; depth = [] });
  raw_text = [];
  imports = [];
  extends_types = [];
  implements_types = [];
  extends_details = [];
  implements_details = [];
  fields = [];
  methods = [];
  dependencies = [];
  start_line = pos 0;
  end_line = pos 0;
  start_column = pos 0;
  end_column = pos 0;
  content = [];
}

-- `cache` is the one that the dependency is looked up in.
unfoldable pub add_absent : List (Text × ClassInfo) → Text → Text → Converter → Result Converter
unfolding put_cache
add_absent cache name source c = elim (find name cache) [
  | some i ↦ ok c
  | none ↦ put_cache (class_point name source) c
]

abbrev pub add_if : Bool → List (Text × ClassInfo) → Text → Text → Converter → Result Converter
add_if true cache name source c = add_absent cache name source c
add_if false cache name source c = ok c

abbrev pub named : DependencyInfo → Bool
named dep = not (text_eq dep.class_name [])

unfoldable pub add_jdk : DependencyInfo → Converter → Result Converter
unfolding text_eq
add_jdk d c =
    add_if (text_eq d.source_type source_jdk && named d) c.jdk_class_cache d.class_name source_jdk c

unfoldable pub add_unknown : DependencyInfo → Converter → Result Converter
unfolding text_eq
add_unknown d c =
    add_if (text_eq d.source_type source_unknown && named d) c.unknown_class_cache d.class_name
      source_unknown c

unfoldable pub add_third_part : DependencyInfo → Converter → Result Converter
unfolding is_third_part
add_third_part d c =
    add_if (is_third_part d.source_type && named d) c.third_part_class_cache d.class_name
      source_maven c

-- The body of the loop over the dependencies: a nil one panics.
unfoldable pub process_dependency : Converter → Option DependencyInfo → Result Converter
unfolding add_jdk add_unknown add_third_part
process_dependency c none = panic
process_dependency c (some d) = do c1 ← add_jdk d c; c2 ← add_unknown d c1; add_third_part d c2

unfoldable pub process_class : Converter → Text × ClassInfo → Result Converter
unfolding process_dependency
process_class c (name, info) = each process_dependency info.dependencies c

-- ProcessClassDepInfo. The loop writes to the other three caches only.
unfoldable pub process_class_dep_info : Converter → Result Converter
unfolding process_class
process_class_dep_info c = each process_class c.local_class_cache c
