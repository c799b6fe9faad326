-- ===== src/Java/Converter/Converted.antt =====
-- What responses leave in the repository of lang/java/ipc/converter.go, whatever their order.
use abcoder.Base.{
  ℕ, zero, suc, Bool-cases, Option-cases, inl, inr, ◌&&◌, ◌≡◌, refl, ap, ◌∙◌, Bool, true, false,
  ◌||◌, List, [], ◌∷◌, ◌++◌, map, Option, none, some, arith, if◌then◌else◌,
}
use abcoder.Base.Text.{Text, All, text_eq, text_eq_iff}
use abcoder.Base.Result.{ok, deref, each, ◌>>=◌}
use abcoder.Base.GoMap.{made, find, get}
use abcoder.Uniast.Language.{java}
use abcoder.Uniast.Model.{Module, Repository}
use abcoder.Uniast.Zero.{new_module}
use abcoder.Uniast.Repository.{get_module}
use abcoder.Uniast.Files.{module_file}
use abcoder.Java.Messages.{
  ClassInfo, AnalyzeResponse, InnerPayload, file_info, progress, class_info, method_call, summary,
  error_info, raw_inner, payload_file_info, get_class_info, payload_class_info,
}
use abcoder.Java.Converter.{
  Cache, jdk_cache, local_cache, unknown_cache, third_part_cache, no_cache, cache_of, new_converter,
  process_response, repository,
}
use abcoder.Java.Converter.Files.{place, add_path}
use abcoder.Java.Converter.State.{
  State, start, store, add_file, add_source, source_of, add_class, step, run, java_file, IsSourced,
  java_repository,
}
use abcoder.Java.Converter.Refine.{process_responses-run, repository-concrete}

-- The payload is a file with this path.
abbrev pub names : Text → InnerPayload → Bool
names p q = elim q [ file_info f ↦ text_eq f.file_path p | _ ↦ false ]

-- A response is about the file with this path.
abbrev pub announces : Text → Option AnalyzeResponse → Bool
announces p none = false
announces p (some r) = text_eq r.payload_type payload_file_info && names p r.payload

unfoldable pub announced : Text → List (Option AnalyzeResponse) → Bool
announced p [] = false
announced p (r ∷ rs) = announces p r || announced p rs

-- The repository has the converter's module and no other, and in it the file of every path that a
-- response announced, with its package, and no other.
pub record IsConverted (repo_path name : Text) (rs : List (Option AnalyzeResponse)) (r : Repository)
    : Type 0 where
  pub own_path : r.path ≡ repo_path
  pub own : Module
  pub has_own : (k : Text) → get_module r k ≡ (if text_eq name k then some own else none)
  pub has_files :
      (p : Text) → module_file own p ≡ (if announced p rs then some (java_file p) else none)

holds : Text → List Text → Bool
holds p [] = false
holds p (q ∷ ps) = text_eq q p || holds p ps

holds-append : (p q : Text) (ps : List Text) → holds p (ps ++ q ∷ []) ≡ (text_eq q p || holds p ps)
unfolding holds
holds-append p q [] = refl
holds-append p q (x ∷ ps) = ground (arith, holds-append p q ps)

holds-place : (p : Text) (ps : List Text) (i : ℕ) → place p ps ≡ some i → holds p ps ≡ true
unfolding holds place
holds-place p [] i h = absurd (cc)
holds-place p (q ∷ ps) zero h = ground (arith, text_eq_iff q p)
holds-place p (q ∷ ps) (suc i) h = ground (arith, text_eq_iff q p, holds-place p ps i)

holds-add_path :
    (p q : Text) (ps : List Text) → holds p (add_path q ps) ≡ (text_eq q p || holds p ps)
unfolding add_path
holds-add_path p q ps = elim (Option-cases (place q ps)) [
  | inl new ↦ rw (add_path, new) (holds-append p q ps)
  | inr (i, at) ↦ rw (add_path, at) (ground (arith, text_eq_iff q p, holds-place q ps i at))
]

or_false : (b : Bool) → (b || false) ≡ b
or_false true = refl
or_false false = refl

-- Storing a class leaves the paths.
paths-store : (k : Cache) (i : ClassInfo) (a : State) → (store k i a).paths ≡ a.paths
paths-store jdk_cache i a = refl
paths-store local_cache i a = refl
paths-store unknown_cache i a = refl
paths-store third_part_cache i a = refl
paths-store no_cache i a = refl

paths-add_source :
    (i : ClassInfo) (o : Option Text) (a : State) → (add_source i o a).paths ≡ a.paths
paths-add_source i none a = refl
paths-add_source i (some source) a = paths-store (cache_of source) i a

paths-add_class : (o : Option ClassInfo) (a : State) → (add_class o a).paths ≡ a.paths
paths-add_class none a = refl
paths-add_class (some i) a = paths-add_source i (source_of i) a

paths-if :
    (b : Bool) (o : Option ClassInfo) (a : State) → (if b then add_class o a else a).paths ≡ a.paths
paths-if true o a = paths-add_class o a
paths-if false o a = refl

holds-add_file :
    (p : Text) (q : InnerPayload) (a : State)
    → holds p (add_file (elim q [ file_info f ↦ some f | _ ↦ none ]) a).paths
      ≡ (names p q || holds p a.paths)
holds-add_file p (progress x) a = refl
holds-add_file p (file_info f) a = holds-add_path p f.file_path a.paths
holds-add_file p (class_info x) a = refl
holds-add_file p (method_call x) a = refl
holds-add_file p (summary x) a = refl
holds-add_file p (error_info x) a = refl
holds-add_file p (raw_inner x) a = refl

holds-step :
    (p : Text) (r : Option AnalyzeResponse) (a : State)
    → holds p (step r a).paths ≡ (announces p r || holds p a.paths)
holds-step p none a = refl
holds-step p (some r) a = elim (Bool-cases (text_eq r.payload_type payload_file_info)) [
  | inl e ↦ rw e (holds-add_file p r.payload a)
  | inr e ↦
      rw e
        (ap (holds p) (paths-if (text_eq r.payload_type payload_class_info) (get_class_info r) a))
]

holds-run :
    (p : Text) (rs : List (Option AnalyzeResponse)) (a : State)
    → holds p (run rs a).paths ≡ (announced p rs || holds p a.paths)
unfolding run announced
holds-run p [] a = refl
holds-run p (r ∷ rs) a = ground (arith, holds-run p rs (step r a), holds-step p r a)

find-java_file :
    (p : Text) (ps : List Text)
    → find p (map (λ q. (q, java_file q)) ps) ≡ (if holds p ps then some (java_file p) else none)
unfolding find holds
find-java_file p [] = refl
find-java_file p (q ∷ ps) = elim (Bool-cases (text_eq q p)) [
  | inl e ↦ rw e (ap (λ t. some (java_file t)) ((text_eq_iff q p).0 e))
  | inr e ↦ rw e (find-java_file p ps)
]

-- After any sequence of responses, in which each class comes with its source, no step has panicked.
-- The repository then has the converter's module and no other; the module has, for each path that a
-- response with a file named, the file of that path with the package of the path, and no other
-- file.
pub repository-process_responses :
    (repo_path name : Text) (rs : List (Option AnalyzeResponse))
    → All IsSourced rs
    → (r : Repository) × ((each (λ c r. process_response r c) rs (new_converter repo_path name)
          >>= λ c. deref (repository c))
        ≡ ok r)
      × IsConverted repo_path name rs r
unfolding get_module get find module_file holds
repository-process_responses repo_path name rs h =
    let a = run rs start in
    let m : Module = record (new_module name [] java) {
      files = made (map (λ p. (p, java_file p)) a.paths);
    } in
    (
      java_repository repo_path name a.paths,
      ap (λ c. c >>= λ c. deref (repository c)) (process_responses-run repo_path name rs h)
          ∙ ap deref (repository-concrete repo_path name a),
      record {
        own_path = refl;
        own = m;
        has_own = λ k. refl;
        has_files = λ p.
            find-java_file p a.paths
            ∙ ap (λ b. if b then some (java_file p) else none)
                (holds-run p rs start ∙ or_false (announced p rs));
      },
    )
