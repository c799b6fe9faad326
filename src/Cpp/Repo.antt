-- ===== src/Cpp/Repo.antt =====
-- The modules of C++ paths in lang/cpp/spec.go: NameSpace, and lookupExternalRepo with its cache. The
-- file system is a parameter: for a directory, the name of the git repository whose root it is. A
-- path is absolute and clean, as the language server gives it.
pub mod Nearest
use abcoder.Base.{
  suc, ◌+◌, ◌≡◌, refl, sym, ap, ◌∙◌, false, not, ◌&&◌, List, [], ◌∷◌, ◌++◌, Option, none, some,
  arith, ◌==◌, if◌then◌else◌, length, drop, Bool-cases, Option-cases, inl, inr,
}
use mathlib.Core.List.{reverse, reverse-reverse}
use abcoder.Base.Text.{Text, text_eq, text_eq_iff, codes}
use abcoder.Base.Search.{index_text}
use abcoder.Base.GoMap.{find, assign, find-assign}
use abcoder.Cpp.Spec.{has_path_prefix}

pub record RepoInfo : Type 0 where
  pub root : Text
  pub name : Text

-- The negative entry of the cache.
abbrev pub no_repo : RepoInfo
no_repo = record { root = []; name = [] }

-- The directories above a path, the nearest first, without the root: what filepath.Dir gives in turn.
-- The path is read from its end; at each '/' what stands before it is a directory.
unfoldable pub dirs_from_end : Text → List Text
dirs_from_end [] = []
dirs_from_end (c ∷ s) =
    let rest = dirs_from_end s in if c == b'/' && not (text_eq s []) then reverse s ∷ rest else rest

unfoldable pub dirs_above : Text → List Text
unfolding dirs_from_end
dirs_above path = dirs_from_end (reverse path)

abbrev pub RepoCache : Type 0
RepoCache = List (Text × RepoInfo)

unfoldable pub cache_chain : RepoCache → List Text → RepoInfo → RepoCache
cache_chain c [] info = c
cache_chain c (d ∷ dirs) info = cache_chain (assign d info c) dirs info

abbrev pub as_found : RepoInfo → Option RepoInfo
as_found info = if text_eq info.root [] then none else some info

module _ (git_name : Text → Option Text) where
  -- The loop of lookupExternalRepo, with the directories that were visited.
  unfoldable pub lookup_loop : RepoCache → List Text → List Text → Option RepoInfo × RepoCache
  unfolding cache_chain find
  lookup_loop c visited [] = (none, cache_chain c visited no_repo)
  lookup_loop c visited (dir ∷ dirs) =
      let rest = lookup_loop c (visited ++ dir ∷ []) dirs in
      elim (find dir c) [
        | some info ↦ (as_found info, cache_chain c visited info)
        | none ↦ elim (git_name dir) [
          | some n ↦
              let info : RepoInfo = record { root = dir; name = n } in
              (some info, cache_chain (assign dir info c) visited info)
          | none ↦ rest
        ]
      ]

  unfoldable pub lookup_external_repo : RepoCache → Text → Option RepoInfo × RepoCache
  unfolding lookup_loop dirs_above
  lookup_external_repo c path = lookup_loop c [] (dirs_above path)

  -- The nearest directory that is the root of a repository.
  unfoldable pub nearest : List Text → RepoInfo
  nearest [] = no_repo
  nearest (d ∷ dirs) =
      let rest = nearest dirs in
      elim (git_name d) [ some n ↦ record { root = d; name = n } | none ↦ rest ]

  -- Every entry of the cache is what a walk from its directory finds.
  pub IsCached : RepoCache → Type 0
  IsCached c =
      (d : Text) (info : RepoInfo) → find d c ≡ some info → info ≡ nearest (d ∷ dirs_above d)

-- filepath.Rel of a path to a directory that it is in, or that it is.
unfoldable pub relative_to : Text → Text → Text
relative_to root path =
    if length path == length root then b'.' ∷ [] else drop (suc (length root)) path

-- What NameSpace reads of CppSpec.
pub record CppSpec : Type 0 where
  pub repo : Text
  pub self_name : Text
  pub sysroots : List Text
  pub repo_mods : RepoCache

unfoldable pub in_sysroot : List Text → Text → Option Text
unfolding has_path_prefix
in_sysroot [] path = none
in_sysroot (sr ∷ srs) path =
    let rest = in_sysroot srs path in
    if not (text_eq sr []) && has_path_prefix path sr then some sr else rest

abbrev pub generated : Text
generated = codes "/build64_release/"

-- The module and the package of a path in no repository, or in one.
abbrev pub external_space : Text → Option RepoInfo → Text × Text
external_space path none = (codes "external", path)
external_space path (some info) = (info.name, relative_to info.root path)

-- NameSpace, but for the walk up to an external repository.
unfoldable pub local_space : CppSpec → Text → Option (Text × Text)
unfolding index_text has_path_prefix in_sysroot relative_to
local_space c path = elim (index_text generated path) [
  | some i ↦ some (codes "build_generated", drop (i + length generated) path)
  | none ↦
      if has_path_prefix path c.repo
      then some (c.self_name, relative_to c.repo path)
      else elim (in_sysroot c.sysroots path) [
        | some sr ↦ some (codes "cstdlib", relative_to sr path)
        | none ↦ none
      ]
]

module _ (git_name : Text → Option Text) where
  unfoldable pub name_space : CppSpec → Text → (Text × Text) × CppSpec
  unfolding local_space lookup_external_repo
  name_space c path = elim (local_space c path) [
    | some space ↦ (space, c)
    | none ↦
        let found = lookup_external_repo git_name c.repo_mods path in
        (external_space path found.0, record c { repo_mods = found.1 })
  ]

  -- The same without a cache.
  unfoldable pub plain_space : CppSpec → Text → Text × Text
  plain_space c path = elim (local_space c path) [
    | some space ↦ space
    | none ↦ external_space path (as_found (nearest git_name (dirs_above path)))
  ]
