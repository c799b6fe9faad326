-- ===== src/Java/Converter/Filed/Reach.antt =====
-- The class caches of lang/java/ipc/converter.go are right in all reachable states.
use abcoder.Base.{ℕ, get_elem?, length, ◌≡◌, [], Option, none, some}
use abcoder.Base.Text.{Text, text_eq}
use abcoder.Base.Result.{ok-injective, ok, deref, bind_ok}
use abcoder.Base.GoMap.{find}
use abcoder.Java.Messages.{
  ClassInfo, AnalyzeResponse, FileInfo, get_class_info, get_file_info, payload_file_info,
  payload_class_info,
}
use abcoder.Java.Converter.{
  Converter, process_class, process_class_dep_info, process_response, process_file_info,
  process_class_info, get_or_create_file, get_or_create_module, add_module_file, linked,
  module_or_new, file_or_new, extract_package_from_path, alloc_file, create_file, packaged,
  set_file_package, empty_converter, new_converter,
}
use abcoder.Java.Converter.Filed.{Reachable, started, responded, closed, AreFiled}
use abcoder.Java.Converter.Filed.Caches.{
  if_ok, put_cache-AreFiled, each-AreFiled, process_class-AreFiled,
}

-- Files and modules are kept apart from the class caches.
AreFiled-module_or_new :
    (name : Text) (c : Converter) (o : Option ℕ) → AreFiled c → AreFiled (module_or_new name c o).0
AreFiled-module_or_new name c (some at) f = f
AreFiled-module_or_new name c none f = record {
  jdk = f.jdk;
  local = f.local;
  unknown = f.unknown;
  third = f.third;
}

AreFiled-alloc_file : (path : Text) (c : Converter) → AreFiled c → AreFiled (alloc_file path c)
AreFiled-alloc_file path c f = record {
  jdk = f.jdk;
  local = f.local;
  unknown = f.unknown;
  third = f.third;
}

add_module_file-AreFiled :
    (path : Text) (file at : ℕ) (c : Converter) {c' : Converter}
    → add_module_file path file at c ≡ ok c'
    → AreFiled c
    → AreFiled c'
unfolding add_module_file
add_module_file-AreFiled path file at c h f =
    bind_ok (deref (get_elem? c.modules at)) (linked path file at c) h λ o e h1.
      coe 0 1 (t. AreFiled (ok-injective h1 t))
        (record { jdk = f.jdk; local = f.local; unknown = f.unknown; third = f.third })

file_or_new-AreFiled :
    (path : Text) (c : Converter) (o : Option ℕ) {x : Converter × ℕ}
    → file_or_new path c o ≡ ok x
    → AreFiled c
    → AreFiled x.0
unfolding create_file get_or_create_module
file_or_new-AreFiled path c (some at) h f = coe 0 1 (t. AreFiled (ok-injective h t).0) f
file_or_new-AreFiled path c none h f =
    let c1 = (get_or_create_module c.module_name (alloc_file path c)).0 in
    let at = (get_or_create_module c.module_name (alloc_file path c)).1 in
    let f1 : AreFiled c1 =
      AreFiled-module_or_new c.module_name (alloc_file path c) (find c.module_name c.module_cache)
        (AreFiled-alloc_file path c f) in
    bind_ok (add_module_file path (length c.files) at c1) (λ c2. ok (c2, length c.files)) h
      λ c2 e h2.
        coe 0 1 (t. AreFiled (ok-injective h2 t).0)
          (add_module_file-AreFiled path (length c.files) at c1 e f1)

set_file_package-AreFiled :
    (pkg : Text) (x : Converter × ℕ) {c' : Converter}
    → set_file_package pkg x ≡ ok c'
    → AreFiled x.0
    → AreFiled c'
set_file_package-AreFiled pkg (c, at) h f =
    bind_ok (deref (get_elem? c.files at)) (packaged pkg c at) h λ o e h1.
      coe 0 1 (t. AreFiled (ok-injective h1 t))
        (record { jdk = f.jdk; local = f.local; unknown = f.unknown; third = f.third })

process_file_info-AreFiled :
    (info : Option FileInfo) (c : Converter) {c' : Converter}
    → process_file_info info c ≡ ok c'
    → AreFiled c
    → AreFiled c'
unfolding process_file_info get_or_create_file
process_file_info-AreFiled none c h f = coe 0 1 (t. AreFiled (ok-injective h t)) f
process_file_info-AreFiled (some info) c h f =
    bind_ok (file_or_new info.file_path c (find info.file_path c.file_cache))
      (set_file_package (extract_package_from_path info.file_path)) h
      λ x e h1.
        set_file_package-AreFiled (extract_package_from_path info.file_path) x h1
          (file_or_new-AreFiled info.file_path c (find info.file_path c.file_cache) e f)

process_class_info-AreFiled :
    (info : Option ClassInfo) (c : Converter) {c' : Converter}
    → process_class_info info c ≡ ok c'
    → AreFiled c
    → AreFiled c'
unfolding process_class_info
process_class_info-AreFiled none c h f = coe 0 1 (t. AreFiled (ok-injective h t)) f
process_class_info-AreFiled (some info) c h f = put_cache-AreFiled info c h f

process_response-AreFiled :
    (r : Option AnalyzeResponse) (c : Converter) {c' : Converter}
    → process_response r c ≡ ok c'
    → AreFiled c
    → AreFiled c'
unfolding process_response
process_response-AreFiled none c h f = coe 0 1 (t. AreFiled (ok-injective h t)) f
process_response-AreFiled (some r) c h f =
    if_ok (text_eq r.payload_type payload_file_info) h
      (λ file. process_file_info-AreFiled (get_file_info r) c file f)
      λ other.
        if_ok (text_eq r.payload_type payload_class_info) other
          (λ class. process_class_info-AreFiled (get_class_info r) c class f)
          λ rest. coe 0 1 (t. AreFiled (ok-injective rest t)) f

-- In every state of a converter, which its constructor, responses and ProcessClassDepInfo lead to,
-- a class stands in a cache under its own name, and its source is the JDK in the cache of JDK
-- classes, local in that of local classes, unknown in that of unknown classes, and Maven or an
-- external jar in that of third-party classes.
pub Reachable-AreFiled :
    (repo_path module_name : Text) (c : Converter) → Reachable repo_path module_name c → AreFiled c
unfolding new_converter get_or_create_module process_class_dep_info
Reachable-AreFiled repo_path module_name _ started =
    AreFiled-module_or_new module_name (empty_converter repo_path module_name) (find module_name [])
      (record { jdk = tt; local = tt; unknown = tt; third = tt })
Reachable-AreFiled repo_path module_name _ (responded r c more h) =
    process_response-AreFiled r c h (Reachable-AreFiled repo_path module_name c more)
Reachable-AreFiled repo_path module_name _ (closed c more h) =
    each-AreFiled process_class process_class-AreFiled c.local_class_cache c h
      (Reachable-AreFiled repo_path module_name c more)
