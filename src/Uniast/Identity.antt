-- ===== src/Uniast/Identity.antt =====
-- Identity of lang/uniast/ast.go: the name of a node, printed as ModPath?PkgPath#Name and read back.
pub mod Parse
pub mod CallName
use abcoder.Base.{
  ℕ, suc, ◌≡◌, ◌↔◌, refl, Bool, true, false, ◌&&◌, List, [], ◌∷◌, ◌++◌, Option, none, some, arith,
  take, drop, length, ◌==◌, if◌then◌else◌,
}
use abcoder.Base.Text.{Text, codes, text_eq, text_eq_iff}
use abcoder.Base.Slices.{index_byte, last_index_byte}

pub record Identity : Type 0 where
  pub mod_path : Text
  pub pkg_path : Text
  pub name : Text

abbrev pub new_identity : Text → Text → Text → Identity
new_identity m p n = record { mod_path = m; pkg_path = p; name = n }

-- The operator == of Go on the struct.
unfoldable pub id_eq : Identity → Identity → Bool
id_eq a b =
    text_eq a.mod_path b.mod_path && (text_eq a.pkg_path b.pkg_path && text_eq a.name b.name)

pub id_eq_iff : (a b : Identity) → (id_eq a b ≡ true) ↔ (a ≡ b)
unfolding id_eq
id_eq_iff a b = (
  λ h. ground (
    arith,
    text_eq_iff a.mod_path b.mod_path,
    text_eq_iff a.pkg_path b.pkg_path,
    text_eq_iff a.name b.name,
  ),
  λ h. ground (
    arith,
    text_eq_iff a.mod_path b.mod_path,
    text_eq_iff a.pkg_path b.pkg_path,
    text_eq_iff a.name b.name,
  ),
)

pub id_eq_refl : (a : Identity) → id_eq a a ≡ true
id_eq_refl a = (id_eq_iff a a).1 refl

-- The second step: the FIRST '?' separates ModPath and PkgPath.
unfoldable pub split_path : Text → Text → Identity
split_path str n = elim (index_byte b'?' str) [
  | some question_idx ↦ new_identity (take question_idx str) (drop (suc question_idx) str) n
  | none ↦ new_identity [] str n
]

-- The first step: the LAST '#' isolates the Name.
unfoldable pub new_identity_from_string : Text → Identity
unfolding split_path
new_identity_from_string str = elim (last_index_byte b'#' str) [
  | some hash_idx ↦ split_path (take hash_idx str) (drop (suc hash_idx) str)
  | none ↦ new_identity [] [] str
]

unfoldable pub string : Identity → Text
string i = i.pkg_path ++ b'#' ∷ i.name

unfoldable pub full : Identity → Text
full i = i.mod_path ++ (b'?' ∷ (i.pkg_path ++ b'#' ∷ i.name))

-- ModPathName: the module's name without its version.
unfoldable pub mod_path_name : Text → Text
mod_path_name m = elim (index_byte b'@' m) [ some i ↦ take i m | none ↦ m ]

-- filepath.Base on a slash-separated path.
unfoldable pub trim_slashes : Text → Text
trim_slashes [] = []
trim_slashes (c ∷ s) =
    let rest = trim_slashes s in if c == b'/' && text_eq rest [] then [] else c ∷ rest

abbrev last_part : Text → Text
last_part s = elim (last_index_byte b'/' s) [ some i ↦ drop (suc i) s | none ↦ s ]

unfoldable pub base : Text → Text
unfolding trim_slashes
base [] = b'.' ∷ []
base (c ∷ s) =
    let part = last_part (trim_slashes (c ∷ s)) in if text_eq part [] then b'/' ∷ [] else part

unfoldable pub call_name : Identity → Text
call_name i = if text_eq i.pkg_path [] then i.name else base i.pkg_path ++ b'.' ∷ i.name
