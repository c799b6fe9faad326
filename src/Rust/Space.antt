-- ===== src/Rust/Space.antt =====
-- NameSpace of lang/rust/spec.go: the crate and the module of a path. What the expression crateReg
-- matches and filepath.Rel are parameters of the model.
use abcoder.Base.{
  suc, ◌+◌, Bool, ◌||◌, List, [], ◌∷◌, ◌++◌, Option, none, some, if◌then◌else◌, take, drop,
}
use abcoder.Base.Path.{path_dir, path_base}
use abcoder.Base.Text.{Text, text_eq, codes}
use abcoder.Base.Slices.{last_index_byte}
use abcoder.Base.Result.{Result, ok, ◌>>=◌, deref}
use abcoder.Base.Search.{starts_with, contains_text, last_index_text, trim_suffix, replace_byte}

-- The Go struct Module of lang/rust.
pub record Crate : Type 0 where
  pub name : Text
  pub path : Text

-- filepath.Base and filepath.Dir of a clean relative path.
unfoldable pub get_mod : Text → Text
unfolding trim_suffix replace_byte text_eq
get_mod path =
    let base = path_base path in
    let rel =
      if text_eq base (codes "mod.rs")
      then path_dir path
      else if text_eq base (codes "lib.rs") || text_eq path (codes "main.rs")
      then []
      else trim_suffix path (codes ".rs") in
    if text_eq rel [] then [] else replace_byte b'/' (codes "::") rel

-- The last directory that holds a src, and the module below it.
unfoldable pub get_crate_and_mod : Text → Result (Text × Text)
unfolding last_index_text get_mod
get_crate_and_mod path = do
  idx ← deref (last_index_text (codes "/src/") path)
  let before = take idx path
  ok (path_base before, get_mod (drop (idx + 5) path))

abbrev pub qualified : Text → Text → Text
qualified name mod_name = if text_eq mod_name [] then name else name ++ (codes "::" ++ mod_name)

module _ (is_version : Text → Bool) (relative : Text → Text → Option Text) where
  -- A crate of a registry is name-version: it becomes name@version.
  unfoldable pub external_crate : Text → Text → Text × Text
  unfolding contains_text
  external_crate path crate =
      if is_version crate
      then elim (last_index_byte b'-' crate) [
        | some i ↦ (take i crate ++ b'@' ∷ drop (suc i) crate, take i crate)
        | none ↦ (crate, crate)
      ]
      else if contains_text path (codes "rust/library/std")
      then (crate, crate)
      else ([], crate)

  unfoldable pub external_space : Text → Result (Text × Text)
  unfolding get_crate_and_mod external_crate
  external_space path = do
    found ← get_crate_and_mod path
    let crate = external_crate path found.0
    ok (crate.0, qualified crate.1 found.1)

  abbrev pub crate_module : Text → Text → Option (Text × Text)
  crate_module name rel = some (name, qualified name (get_mod rel))

  -- The first crate whose path is a prefix; `none` is an error.
  unfoldable pub crate_space : List Crate → Text → Option (Text × Text)
  unfolding get_mod starts_with
  crate_space [] path = none
  crate_space (n ∷ crates) path =
      let rest = crate_space crates path in
      if starts_with n.path path
      then elim (relative n.path path) [ some rel ↦ crate_module n.name rel | none ↦ none ]
      else rest

  unfoldable pub name_space : Text → List Crate → Text → Result (Option (Text × Text))
  unfolding external_space crate_space
  name_space repo crates path =
      if starts_with repo path
      then ok (crate_space crates path)
      else external_space path >>= λ space. ok (some space)
