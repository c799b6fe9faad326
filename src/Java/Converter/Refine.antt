-- ===== src/Java/Converter/Refine.antt =====
-- The converter of lang/java/ipc/converter.go implements the state without pointers.
use abcoder.Base.{
  ℕ, ◌+◌, ◌≡◌, ◌≢◌, refl, ap, sym, ◌∙◌, inl, inr, Bool, true, false, List, [], ◌∷◌, ◌++◌, map,
  Option, none, some, arith, if◌then◌else◌, length, Option-cases, length-map,
}
use abcoder.Base.Text.{Text, All, text_eq, text_eq_iff}
use abcoder.Base.Result.{Result, ok, deref, each, ◌>>=◌}
use abcoder.Base.GoMap.{made, find, assign, and_then}
use abcoder.Uniast.Language.{java}
use abcoder.Uniast.Zero.{new_repository, new_module, new_file}
use abcoder.Java.Messages.{
  ClassInfo, FileInfo, AnalyzeResponse, get_class_info, get_file_info, payload_file_info,
  payload_class_info,
}
use abcoder.Java.Converter.{
  Converter, Cache, cache_of, store_class, jdk_cache, local_cache, unknown_cache, third_part_cache,
  no_cache, put_cache, process_response, process_file_info, process_class_info, get_or_create_file,
  get_or_create_module, add_module_file, module_or_new, file_or_new, extract_package_from_path,
  alloc_file, create_file, packaged, set_file_package, new_converter, repository, modules_at,
}
use abcoder.Java.Converter.Files.{
  number, place, add_path, find-number-none, find-number-some, assign-number, get_elem?-place,
  set-place, map-append_one, get_elem?-length, set-length, files_at-number,
}
use abcoder.Java.Converter.State.{
  State, start, store, add_file, add_source, add_class, step, run, java_file, HasSource, IsSourced,
  shape, concrete, java_repository,
}

module _ (repo_path name : Text) where
  store_class-concrete :
      (k : Cache) (i : ClassInfo) (a : State)
      → store_class k i (concrete repo_path name a) ≡ concrete repo_path name (store k i a)
  store_class-concrete jdk_cache i a = refl
  store_class-concrete local_cache i a = refl
  store_class-concrete unknown_cache i a = refl
  store_class-concrete third_part_cache i a = refl
  store_class-concrete no_cache i a = refl

  put_cache-concrete :
      (i : ClassInfo) (a : State)
      → i.source ≢ none
      → put_cache i (concrete repo_path name a)
        ≡ ok (concrete repo_path name (add_class (some i) a))
  unfolding put_cache
  put_cache-concrete i a h = elim (Option-cases i.source) [
    | inl missing ↦ absurd (h missing)
    | inr (s, at) ↦
        ap
          (λ o. deref o >>= λ s.
            ok (store_class (cache_of s.source_type) i (concrete repo_path name a)))
          at
        ∙ ap ok (store_class-concrete (cache_of s.source_type) i a)
        ∙ sym (
            ap
              (λ o. ok (
                concrete repo_path name
                  (add_source i (elim o [ none ↦ none | some s ↦ some s.source_type ]) a)))
              at)
  ]

  module _ (a : State) (p : Text) where
    abbrev here : ℕ
    here = length (map java_file a.paths)

    abbrev longer : List (Text × ℕ)
    longer = assign p here (number 0 a.paths)

    find_own_module :
        get_or_create_module name (alloc_file p (concrete repo_path name a))
        ≡ (alloc_file p (concrete repo_path name a), 0)
    unfolding get_or_create_module find
    find_own_module =
        ap
          (λ b.
            module_or_new name (alloc_file p (concrete repo_path name a))
              (if b then some 0 else none))
          ((text_eq_iff name name).1 refl)

    create_file-concrete :
        create_file p (concrete repo_path name a)
        ≡ ok (shape repo_path name longer (map java_file a.paths ++ new_file p ∷ []) a, here)
    unfolding create_file add_module_file
    create_file-concrete =
        ap (λ x. add_module_file p here x.1 x.0 >>= λ c2. ok (c2, here)) find_own_module

    package_new :
        set_file_package
          (extract_package_from_path p)
          (shape repo_path name longer (map java_file a.paths ++ new_file p ∷ []) a, here)
        ≡ ok (shape repo_path name longer (map java_file a.paths ++ java_file p ∷ []) a)
    package_new =
        ap
          (λ o.
            deref o
            >>= packaged (extract_package_from_path p)
                (shape repo_path name longer (map java_file a.paths ++ new_file p ∷ []) a) here)
          (get_elem?-length (map java_file a.paths) (new_file p) [])
        ∙ ap (λ fs. ok (shape repo_path name longer fs a))
            (set-length (map java_file a.paths) (new_file p) (java_file p))

    shape-longer :
        place p a.paths ≡ none
        → shape repo_path name longer (map java_file a.paths ++ java_file p ∷ []) a
          ≡ concrete repo_path name (record a { paths = a.paths ++ p ∷ [] })
    shape-longer h =
        let count : here ≡ 0 + length a.paths = omega (arith, length-map a.paths java_file) in
        ap
          (λ n.
            shape repo_path name (assign p n (number 0 a.paths))
              (map java_file a.paths ++ java_file p ∷ []) a)
          count
        ∙ ap (λ c. shape repo_path name c (map java_file a.paths ++ java_file p ∷ []) a)
            (assign-number p 0 a.paths h)
        ∙ ap (λ fs. shape repo_path name (number 0 (a.paths ++ p ∷ [])) fs a)
            (sym (map-append_one java_file a.paths p))

    package_again :
        (i : ℕ)
        → place p a.paths ≡ some i
        → set_file_package (extract_package_from_path p) (concrete repo_path name a, i)
          ≡ ok (concrete repo_path name a)
    package_again i h =
        ap (λ o. deref o >>= packaged (extract_package_from_path p) (concrete repo_path name a) i)
          (get_elem?-place java_file p a.paths i h)
        ∙ ap (λ fs. ok (shape repo_path name (number 0 a.paths) fs a))
            (set-place java_file p a.paths i h)

  process_file_info-concrete :
      (info : Option FileInfo) (a : State)
      → process_file_info info (concrete repo_path name a)
        ≡ ok (concrete repo_path name (add_file info a))
  unfolding process_file_info get_or_create_file add_path
  process_file_info-concrete none a = refl
  process_file_info-concrete (some info) a =
      let p = info.file_path in
      let rest : Result (Converter × ℕ) → Result Converter =
        λ r. r >>= set_file_package (extract_package_from_path p) in
      elim (Option-cases (place p a.paths)) [
        | inl new ↦
            ap (λ o. rest (file_or_new p (concrete repo_path name a) o))
              (find-number-none p 0 a.paths new)
            ∙ ap rest (create_file-concrete a p)
            ∙ package_new a p
            ∙ ap ok (shape-longer a p new)
            ∙ sym (
                ap
                  (λ o. ok (
                    concrete repo_path name (record a {
                      paths = elim o [ none ↦ a.paths ++ p ∷ [] | some i ↦ a.paths ];
                    })))
                  new)
        | inr (i, at) ↦
            ap (λ o. rest (file_or_new p (concrete repo_path name a) o))
              (find-number-some p 0 a.paths i at ∙ ap some (omega arith))
            ∙ package_again a p i at
            ∙ sym (
                ap
                  (λ o. ok (
                    concrete repo_path name (record a {
                      paths = elim o [ none ↦ a.paths ++ p ∷ [] | some i ↦ a.paths ];
                    })))
                  at)
      ]

  if-concrete :
      (b : Bool) {m n : Result Converter} (x y : State)
      → m ≡ ok (concrete repo_path name x)
      → n ≡ ok (concrete repo_path name y)
      → (if b then m else n) ≡ ok (concrete repo_path name (if b then x else y))
  if-concrete true x y p q = p
  if-concrete false x y p q = q

  process_class_info-concrete :
      (o : Option ClassInfo) (a : State)
      → HasSource o
      → process_class_info o (concrete repo_path name a)
        ≡ ok (concrete repo_path name (add_class o a))
  unfolding process_class_info
  process_class_info-concrete none a h = refl
  process_class_info-concrete (some i) a h = put_cache-concrete i a h

  process_response-concrete :
      (r : Option AnalyzeResponse) (a : State)
      → IsSourced r
      → process_response r (concrete repo_path name a) ≡ ok (concrete repo_path name (step r a))
  unfolding process_response
  process_response-concrete none a h = refl
  process_response-concrete (some r) a h =
      if-concrete (text_eq r.payload_type payload_file_info) (add_file (get_file_info r) a) _
        (process_file_info-concrete (get_file_info r) a)
        (if-concrete (text_eq r.payload_type payload_class_info) (add_class (get_class_info r) a) a
          (process_class_info-concrete (get_class_info r) a h) refl)

  each-concrete :
      (rs : List (Option AnalyzeResponse)) (a : State)
      → All IsSourced rs
      → each (λ c r. process_response r c) rs (concrete repo_path name a)
        ≡ ok (concrete repo_path name (run rs a))
  unfolding each run
  each-concrete [] a h = refl
  each-concrete (r ∷ rs) a (h, more) =
      ap (λ c. c >>= each (λ c r. process_response r c) rs) (process_response-concrete r a h)
      ∙ each-concrete rs (step r a) more

  -- A new converter stands for the empty state. After any sequence of responses, in which each class
  -- comes with its source, no step has panicked, and the converter is the one of the state that the
  -- abstract steps lead to: its caches, its module and the files of its heap agree.
  pub process_responses-run :
      (rs : List (Option AnalyzeResponse))
      → All IsSourced rs
      → each (λ c r. process_response r c) rs (new_converter repo_path name)
        ≡ ok (concrete repo_path name (run rs start))
  unfolding new_converter get_or_create_module number find assign
  process_responses-run rs h = each-concrete rs start h

  -- What the caller sees of the converter of a state.
  pub repository-concrete :
      (a : State)
      → repository (concrete repo_path name a) ≡ some (java_repository repo_path name a.paths)
  unfolding repository modules_at
  repository-concrete a =
      ap
        (λ o.
          and_then
            (and_then o
              λ fs. some ((name, record (new_module name [] java) { files = made fs }) ∷ []))
            λ ms. some (record (new_repository name) { path = repo_path; modules = made ms }))
        (files_at-number java_file [] a.paths 0 refl)
