-- ===== src/Cpp/Origin.antt =====
-- readGitOriginOrgRepo of lang/cpp/spec.go: the name of a repository, from the text of its git
-- configuration. The text of a file that cannot be read is `none`. repo_name is the test of one directory
-- in lookupExternalRepo, the parameter `git_name` of Cpp/Repo.
use abcoder.Base.{
  suc, ◌+◌, Bool, false, not, List, [], ◌∷◌, ◌++◌, Option, none, some, if◌then◌else◌, take, drop,
}
use abcoder.Base.Text.{Text, text_eq, codes}
use abcoder.Base.Path.{path_base}
use abcoder.Base.Slices.{index_byte, last_index_byte}
use abcoder.Base.Search.{
  starts_with, index_text, contains_text, trim_suffix, trim_space, split_byte,
}

abbrev pub origin_section : Text
origin_section = codes "remote " ++ b'"' ∷ codes "origin" ++ b'"' ∷ []

-- What is behind the last '@'.
unfoldable pub behind_at : Text → Text
unfolding last_index_byte
behind_at s = elim (last_index_byte b'@' s) [ some i ↦ drop (suc i) s | none ↦ s ]

-- The host and the path of scheme://user@host/path; no host where there is no path.
unfoldable pub split_host : Text → Text × Text
unfolding index_byte
split_host rest = elim (index_byte b'/' rest) [
  | some i ↦ (take i rest, drop (suc i) rest)
  | none ↦ ([], rest)
]

-- The host and the path of user@host:path.
unfoldable pub split_colon : Text → Text × Text
unfolding last_index_byte contains_text behind_at
split_colon u = elim (last_index_byte b':' u) [
  | some i ↦
      if contains_text (take i u) (codes "/")
      then ([], u)
      else (behind_at (take i u), drop (suc i) u)
  | none ↦ ([], u)
]

unfoldable pub split_url : Text → Text × Text
unfolding index_text split_host split_colon behind_at
split_url u = elim (index_text (codes "://") u) [
  | some i ↦ split_host (behind_at (drop (i + 3) u))
  | none ↦ split_colon u
]

-- The last two parts of a path, or all of a path of one part.
abbrev pub last_two : Text → List Text → Text
last_two whole [] = whole
last_two whole (p ∷ []) = whole
last_two whole (p ∷ q ∷ []) = p ++ b'/' ∷ q
last_two whole (p ∷ q ∷ r ∷ ps) = last_two whole (q ∷ r ∷ ps)

unfoldable pub with_host : Text × Text → Text
unfolding split_byte text_eq
with_host (host, path) =
    let org_repo = last_two path (split_byte b'/' path) in
    if text_eq host [] then org_repo else host ++ b'/' ∷ org_repo

unfoldable pub url_name : Text → Text
unfolding split_url with_host trim_suffix
url_name u = with_host (split_url (trim_suffix u (codes ".git")))

-- The url that a line sets.
unfoldable pub line_url : Text → Option Text
unfolding index_byte trim_space text_eq
line_url line = elim (index_byte b'=' line) [
  | none ↦ none
  | some i ↦
      if text_eq (trim_space (take i line)) (codes "url")
      then some (trim_space (drop (suc i) line))
      else none
]

-- The loop over the lines; the flag says that the section is the one of the origin.
unfoldable pub origin_name : Bool → List Text → Text
unfolding line_url url_name starts_with contains_text trim_space
origin_name inside [] = []
origin_name inside (raw ∷ lines) =
    let line = trim_space raw in
    let header = origin_name (contains_text line origin_section) lines in
    let rest = origin_name inside lines in
    if starts_with (codes "[") line
    then header
    else if not inside
    then rest
    else elim (line_url line) [ some u ↦ url_name u | none ↦ rest ]

unfoldable pub read_git_origin_org_repo : Option Text → Text
unfolding origin_name split_byte
read_git_origin_org_repo none = []
read_git_origin_org_repo (some config) = origin_name false (split_byte b'\n' config)

-- The name of a directory that holds a .git directory; `config` gives the text of its configuration.
unfoldable pub repo_name : (Text → Option (Option Text)) → Text → Option Text
unfolding read_git_origin_org_repo path_base text_eq
repo_name config dir = elim (config dir) [
  | none ↦ none
  | some text ↦
      let name = read_git_origin_org_repo text in
      some (if text_eq name [] then path_base dir else name)
]
