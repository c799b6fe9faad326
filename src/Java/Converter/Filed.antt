-- ===== src/Java/Converter/Filed.antt =====
-- The class caches of lang/java/ipc/converter.go hold the classes of their sources, in every state
-- that responses and ProcessClassDepInfo lead to.
pub mod Caches
pub mod Reach
use abcoder.Base.{◌≡◌, ◌⊎◌, List, Option, some}
use abcoder.Base.Text.{Text, All}
use abcoder.Base.Result.{ok}
use abcoder.Java.Messages.{
  ClassInfo, SourceInfo, AnalyzeResponse, source_local, source_jdk, source_unknown, source_maven,
  source_external_jar,
}
use abcoder.Java.Converter.{
  Converter, Cache, jdk_cache, local_cache, unknown_cache, third_part_cache, no_cache,
  process_class_dep_info, process_response, new_converter,
}

-- The states of a converter: responses may come before and after ProcessClassDepInfo.
pub data Reachable (repo_path module_name : Text) : Converter → Type 0 where
  started : Reachable repo_path module_name (new_converter repo_path module_name)
  responded :
      (r : Option AnalyzeResponse) (c : Converter) {c' : Converter}
      → Reachable repo_path module_name c
      → process_response r c ≡ ok c'
      → Reachable repo_path module_name c'
  closed :
      (c : Converter) {c' : Converter}
      → Reachable repo_path module_name c
      → process_class_dep_info c ≡ ok c'
      → Reachable repo_path module_name c'

-- The types of source that a cache is for.
abbrev pub Belongs : Cache → Text → Type 0
Belongs jdk_cache source = source ≡ source_jdk
Belongs local_cache source = source ≡ source_local
Belongs unknown_cache source = source ≡ source_unknown
Belongs third_part_cache source = (source ≡ source_maven) ⊎ (source ≡ source_external_jar)
Belongs no_cache source = Unit

-- A class under its own name, with a source that belongs to the cache.
pub record IsFor (k : Cache) (name : Text) (i : ClassInfo) : Type 0 where
  pub own_name : i.class_name ≡ name
  pub origin : SourceInfo
  pub has_source : i.source ≡ some origin
  pub cached : Belongs k origin.source_type

abbrev AllFor : Cache → List (Text × ClassInfo) → Type 0
AllFor k = All (λ x. IsFor k x.0 x.1)

-- Each class of a cache is under its name and comes from the source that the cache is for.
pub record AreFiled (c : Converter) : Type 0 where
  pub jdk : AllFor jdk_cache c.jdk_class_cache
  pub local : AllFor local_cache c.local_class_cache
  pub unknown : AllFor unknown_cache c.unknown_class_cache
  pub third : AllFor third_part_cache c.third_part_class_cache
