-- ===== src/Cpp/Repo/Nearest.antt =====
-- The cache of lookupExternalRepo in lang/cpp/spec.go changes nothing of what it and NameSpace find.
use abcoder.Base.{
  ◌≡◌, refl, sym, ap, ◌∙◌, false, not, ◌&&◌, List, [], ◌∷◌, ◌++◌, Option, none, some, arith, ◌==◌,
  Bool-cases, Option-cases, inl, inr,
}
use mathlib.Core.List.{reverse, reverse-reverse}
use abcoder.Base.Text.{Text, text_eq, text_eq_iff}
use abcoder.Base.GoMap.{find, assign, find-assign}
use abcoder.Cpp.Repo.{
  RepoInfo, no_repo, dirs_from_end, dirs_above, RepoCache, cache_chain, as_found, lookup_loop,
  lookup_external_repo, nearest, IsCached, CppSpec, external_space, local_space, name_space,
  plain_space,
}

reverse_ne : (s : Text) → text_eq s [] ≡ false → text_eq (reverse s) [] ≡ false
reverse_ne s h = ground (
  arith,
  text_eq_iff s [],
  text_eq_iff (reverse s) [],
  reverse-reverse s,
  λ (e : reverse s ≡ []). sym (reverse-reverse s) ∙ ap reverse e,
)

module _ (git_name : Text → Option Text) where
  -- the directories are a walk up
  abbrev IsWalk : List Text → Type 0
  IsWalk [] = Unit
  IsWalk (d ∷ dirs) = (dirs_above d ≡ dirs) × (text_eq d [] ≡ false) × IsWalk dirs

  -- from each visited directory the walk finds the same
  abbrev AllFind : RepoInfo → List Text → Type 0
  AllFind info [] = Unit
  AllFind info (d ∷ ds) = (nearest git_name (d ∷ dirs_above d) ≡ info) × AllFind info ds

  pub IsCached-empty : IsCached git_name []
  unfolding IsCached find
  IsCached-empty d info found = absurd (cc)

  pub assign-IsCached :
      (c : RepoCache) (d : Text) (info : RepoInfo)
      → info ≡ nearest git_name (d ∷ dirs_above d)
      → IsCached git_name c
      → IsCached git_name (assign d info c)
  unfolding IsCached
  assign-IsCached c d info right cached j i found =
      ground (arith, find-assign d j info c, text_eq_iff d j, cached j i)

  cache_chain-IsCached :
      (c : RepoCache) (ds : List Text) (info : RepoInfo)
      → AllFind info ds
      → IsCached git_name c
      → IsCached git_name (cache_chain c ds info)
  unfolding cache_chain
  cache_chain-IsCached c [] info all cached = cached
  cache_chain-IsCached c (d ∷ ds) info (e, all) cached =
      cache_chain-IsCached (assign d info c) ds info all (assign-IsCached c d info (sym e) cached)

  AllFind-append :
      (info : RepoInfo) (ds : List Text) (d : Text)
      → AllFind info ds
      → nearest git_name (d ∷ dirs_above d) ≡ info
      → AllFind info (ds ++ d ∷ [])
  AllFind-append info [] d all e = (e, tt)
  AllFind-append info (x ∷ ds) d (h, all) e = (h, AllFind-append info ds d all e)

  nearest_hit :
      (d : Text) (dirs : List Text) (n : Text)
      → git_name d ≡ some n
      → nearest git_name (d ∷ dirs) ≡ record { root = d; name = n }
  unfolding nearest
  nearest_hit d dirs n h = ground arith

  nearest_miss :
      (d : Text) (dirs : List Text)
      → git_name d ≡ none
      → nearest git_name (d ∷ dirs) ≡ nearest git_name dirs
  unfolding nearest
  nearest_miss d dirs h = ground arith

  module _ (c : RepoCache) (visited : List Text) (d : Text) (dirs : List Text) where
    lookup_loop_cached :
        (info : RepoInfo)
        → find d c ≡ some info
        → lookup_loop git_name c visited (d ∷ dirs) ≡ (as_found info, cache_chain c visited info)
    unfolding lookup_loop
    lookup_loop_cached info found = ground arith

    lookup_loop_git :
        (info : RepoInfo) (n : Text)
        → find d c ≡ none
        → git_name d ≡ some n
        → info ≡ record { root = d; name = n }
        → lookup_loop git_name c visited (d ∷ dirs)
          ≡ (some info, cache_chain (assign d info c) visited info)
    unfolding lookup_loop
    lookup_loop_git info n new is_repo e = ground arith

    lookup_loop_on :
        find d c ≡ none
        → git_name d ≡ none
        → lookup_loop git_name c visited (d ∷ dirs)
          ≡ lookup_loop git_name c (visited ++ d ∷ []) dirs
    unfolding lookup_loop
    lookup_loop_on new plain = ground arith

  lookup_loop-nearest :
      (c : RepoCache) (visited dirs : List Text)
      → IsCached git_name c
      → IsWalk dirs
      → AllFind (nearest git_name dirs) visited
      → ((lookup_loop git_name c visited dirs).0 ≡ as_found (nearest git_name dirs))
        × IsCached git_name (lookup_loop git_name c visited dirs).1
  unfolding lookup_loop nearest IsCached
  lookup_loop-nearest c visited [] cached walk all =
      (unfold text_eq in refl, cache_chain-IsCached c visited no_repo all cached)
  lookup_loop-nearest c visited (d ∷ dirs) cached (above, proper, walk) all =
      elim (Option-cases (find d c)) [
        | inr (info, found) ↦
            let right : info ≡ nearest git_name (d ∷ dirs) =
              cached d info found ∙ ap (λ ds. nearest git_name (d ∷ ds)) above in
            rw (lookup_loop_cached c visited d dirs info found)
              (ap as_found right, cache_chain-IsCached c visited info (rw right all) cached)
        | inl new ↦ elim (Option-cases (git_name d)) [
          | inr (n, is_repo) ↦
              let info : RepoInfo = record { root = d; name = n } in
              let right : nearest git_name (d ∷ dirs) ≡ info = nearest_hit d dirs n is_repo in
              let entry =
                assign-IsCached c d info (sym (nearest_hit d (dirs_above d) n is_repo)) cached in
              rw (lookup_loop_git c visited d dirs info n new is_repo refl, right, proper)
                (refl, cache_chain-IsCached (assign d info c) visited info (rw (← right) all) entry)
          | inl plain ↦
              let same = nearest_miss d dirs plain in
              let all' : AllFind (nearest git_name dirs) visited = rw (← same) all in
              let here : nearest git_name (d ∷ dirs_above d) ≡ nearest git_name dirs =
                rw above same in
              let (result, cached') =
                lookup_loop-nearest c (visited ++ d ∷ []) dirs cached walk
                  (AllFind-append (nearest git_name dirs) visited d all' here) in
              rw (lookup_loop_on c visited d dirs new plain, same) (result, cached')
        ]
      ]

  IsWalk-dirs_from_end : (s : Text) → IsWalk (dirs_from_end s)
  unfolding dirs_from_end
  IsWalk-dirs_from_end [] = tt
  IsWalk-dirs_from_end (c ∷ s) =
      let rest = IsWalk-dirs_from_end s in
      elim (Bool-cases (c == b'/' && not (text_eq s []))) [
        | inr other ↦ rw other rest
        | inl here ↦ rw here (
          unfold dirs_above in ap dirs_from_end (reverse-reverse s),
          reverse_ne s (ground arith),
          rest,
        )
      ]

  -- With a cache whose entries are what a walk up from their directories finds, the search for the
  -- repository of a path finds the nearest directory above it that is the root of a repository, as
  -- it would with no cache, and leaves such a cache.
  pub lookup_external_repo-nearest :
      (c : RepoCache) (path : Text)
      → IsCached git_name c
      → ((lookup_external_repo git_name c path).0 ≡ as_found (nearest git_name (dirs_above path)))
        × IsCached git_name (lookup_external_repo git_name c path).1
  unfolding lookup_external_repo dirs_above
  lookup_external_repo-nearest c path cached =
      lookup_loop-nearest c [] (dirs_above path) cached (IsWalk-dirs_from_end (reverse path)) tt

module _ (git_name : Text → Option Text) where
  name_space_local :
      (c : CppSpec) (path : Text) (space : Text × Text)
      → local_space c path ≡ some space
      → (name_space git_name c path ≡ (space, c)) × (plain_space git_name c path ≡ space)
  unfolding name_space plain_space
  name_space_local c path space h = (ground arith, ground arith)

  name_space_external :
      (c : CppSpec) (path : Text)
      → local_space c path ≡ none
      → let found = lookup_external_repo git_name c.repo_mods path in
        (name_space git_name c path
          ≡ (external_space path found.0, record c { repo_mods = found.1 }))
        × (plain_space git_name c path
            ≡ external_space path (as_found (nearest git_name (dirs_above path))))
  unfolding name_space plain_space
  name_space_external c path h = (ground arith, ground arith)

  -- With a cache whose entries are right, NameSpace gives a path the module and the package that it
  -- has without the cache, and leaves a cache whose entries are right.
  pub name_space-plain_space :
      (c : CppSpec) (path : Text)
      → IsCached git_name c.repo_mods
      → ((name_space git_name c path).0 ≡ plain_space git_name c path)
        × IsCached git_name (name_space git_name c path).1.repo_mods
  name_space-plain_space c path cached = elim (Option-cases (local_space c path)) [
    | inr (space, h) ↦
        let (run, plain) = name_space_local c path space h in rw (run, plain) (refl, cached)
    | inl h ↦
        let (run, plain) = name_space_external c path h in
        let (same, cached') = lookup_external_repo-nearest git_name c.repo_mods path cached in
        rw (run, plain) (ap (external_space path) same, cached')
  ]
