-- ===== src/Java/Converter/State.antt =====
-- The state without pointers that the converter of lang/java/ipc/converter.go implements: the paths of
-- the files, in the order in which they came, and the classes.
use abcoder.Base.{ℕ, ◌≢◌, List, [], ◌∷◌, map, Option, none, some, if◌then◌else◌}
use abcoder.Base.Text.{Text, text_eq}
use abcoder.Base.GoMap.{made, assign}
use abcoder.Uniast.Language.{java}
use abcoder.Uniast.Model.{File, Repository}
use abcoder.Uniast.Zero.{new_repository, new_module}
use abcoder.Java.Messages.{
  ClassInfo, FileInfo, AnalyzeResponse, get_class_info, get_file_info, payload_file_info,
  payload_class_info,
}
use abcoder.Java.Converter.{
  Converter, ModuleObject, Cache, cache_of, jdk_cache, local_cache, unknown_cache, third_part_cache,
  no_cache, extract_package_from_path,
}
use abcoder.Java.Converter.Files.{number, add_path}

-- The abstract state.
pub record State : Type 0 where
  pub paths : List Text
  pub jdk : List (Text × ClassInfo)
  pub local : List (Text × ClassInfo)
  pub unknown : List (Text × ClassInfo)
  pub third_part : List (Text × ClassInfo)

abbrev pub start : State
start = record { paths = []; jdk = []; local = []; unknown = []; third_part = [] }

abbrev pub store : Cache → ClassInfo → State → State
store jdk_cache i a = record a { jdk = assign i.class_name i a.jdk }
store local_cache i a = record a { local = assign i.class_name i a.local }
store unknown_cache i a = record a { unknown = assign i.class_name i a.unknown }
store third_part_cache i a = record a { third_part = assign i.class_name i a.third_part }
store no_cache i a = a

abbrev pub add_file : Option FileInfo → State → State
add_file none a = a
add_file (some info) a = record a { paths = add_path info.file_path a.paths }

abbrev pub add_source : ClassInfo → Option Text → State → State
add_source i none a = a
add_source i (some source) a = store (cache_of source) i a

abbrev pub source_of : ClassInfo → Option Text
source_of i = elim i.source [ none ↦ none | some s ↦ some s.source_type ]

abbrev pub add_class : Option ClassInfo → State → State
add_class none a = a
add_class (some i) a = add_source i (source_of i) a

abbrev pub step : Option AnalyzeResponse → State → State
step none a = a
step (some r) a =
    if text_eq r.payload_type payload_file_info
    then add_file (get_file_info r) a
    else if text_eq r.payload_type payload_class_info
    then add_class (get_class_info r) a
    else a

unfoldable pub run : List (Option AnalyzeResponse) → State → State
run [] a = a
run (r ∷ rs) a = run rs (step r a)

-- The file of a path.
abbrev pub java_file : Text → File
java_file p = record { path = p; imports = []; pkg = extract_package_from_path p }

abbrev pub module_object : Text → List (Text × ℕ) → ModuleObject
module_object name fs = record { module_data = new_module name [] java; module_files = fs }

-- A class comes with its source.
abbrev pub HasSource : Option ClassInfo → Type 0
HasSource none = Unit
HasSource (some i) = i.source ≢ none

abbrev pub IsSourced : Option AnalyzeResponse → Type 0
IsSourced none = Unit
IsSourced (some r) = HasSource (get_class_info r)

module _ (repo_path name : Text) where
  -- The converter of an abstract state: with these pointers and files, and with its own.
  abbrev pub shape : List (Text × ℕ) → List File → State → Converter
  shape cache fs a = record {
    repo = record (new_repository name) { path = repo_path };
    repo_modules = (name, 0) ∷ [];
    repo_path = repo_path;
    module_name = name;
    file_cache = cache;
    module_cache = (name, 0) ∷ [];
    jdk_class_cache = a.jdk;
    local_class_cache = a.local;
    unknown_class_cache = a.unknown;
    third_part_class_cache = a.third_part;
    files = fs;
    modules = module_object name cache ∷ [];
  }

  abbrev pub concrete : State → Converter
  concrete a = shape (number 0 a.paths) (map java_file a.paths) a

  -- What the caller then sees.
  abbrev pub java_repository : List Text → Repository
  java_repository ps = record (new_repository name) {
    path = repo_path;
    modules = made (
        (name, record (new_module name [] java) { files = made (map (λ p. (p, java_file p)) ps) })
        ∷ []);
  }
