-- ===== src/Uniast/Identity/Parse.antt =====
-- NewIdentityFromString reads back what Full and String print.
use abcoder.Base.{ℕ, suc, ◌≡◌, ◌∙◌, [], ◌∷◌, ◌++◌, append_assoc, some, arith, take, drop}
use abcoder.Base.Text.{Text, Lacks}
use abcoder.Base.Slices.{
  index_byte, last_index_byte, index_byte-append, index_byte-Lacks, last_index_byte-append,
  index_byte-split, last_index_byte-split, take-length-append, drop-suc-length-append,
}
use abcoder.Uniast.Identity.{
  Identity, new_identity, new_identity_from_string, split_path, full, string,
}

-- the step at a '#' behind which there is none
from_string_at_hash :
    (s n : Text) → Lacks b'#' n → new_identity_from_string (s ++ b'#' ∷ n) ≡ split_path s n
unfolding new_identity_from_string
from_string_at_hash s n h = ground (
  arith,
  last_index_byte-append b'#' s n h,
  take-length-append s (b'#' ∷ n),
  drop-suc-length-append s b'#' n,
)

split_path_at_question :
    (m p n : Text) → Lacks b'?' m → split_path (m ++ b'?' ∷ p) n ≡ new_identity m p n
unfolding split_path
split_path_at_question m p n h = ground (
  arith,
  index_byte-append b'?' m p h,
  take-length-append m (b'?' ∷ p),
  drop-suc-length-append m b'?' p,
)

-- A printed identity is read back, if its module path has no '?' and its name has no '#'. The
-- package path may hold both.
pub new_identity_from_string-full :
    (i : Identity)
    → Lacks b'?' i.mod_path
    → Lacks b'#' i.name
    → new_identity_from_string (full i) ≡ i
unfolding full
new_identity_from_string-full i hm hn =
    rw (← append_assoc i.mod_path (b'?' ∷ i.pkg_path) (b'#' ∷ i.name)) (
      from_string_at_hash (i.mod_path ++ b'?' ∷ i.pkg_path) i.name hn
      ∙ split_path_at_question i.mod_path i.pkg_path i.name hm)

-- String drops the module path: what it prints is read back with an empty one, if the package path
-- has no '?' and the name has no '#'.
pub new_identity_from_string-string :
    (i : Identity)
    → Lacks b'?' i.pkg_path
    → Lacks b'#' i.name
    → new_identity_from_string (string i) ≡ record i { mod_path = [] }
unfolding string
new_identity_from_string-string i hp hn =
    from_string_at_hash i.pkg_path i.name hn
    ∙ unfold split_path in ground (arith, index_byte-Lacks b'?' i.pkg_path hp)

-- Printing what was read gives the text back, if it has a '#' and a '?' before the last '#'.
pub full-new_identity_from_string :
    (str : Text) (h q : ℕ)
    → last_index_byte b'#' str ≡ some h
    → index_byte b'?' (take h str) ≡ some q
    → full (new_identity_from_string str) ≡ str
unfolding new_identity_from_string full
full-new_identity_from_string str h q hh hq = ground (
  arith,
  last_index_byte-split b'#' str h hh,
  index_byte-split b'?' (take h str) q hq,
  append_assoc (take q (take h str)) (b'?' ∷ drop (suc q) (take h str)) (b'#' ∷ drop (suc h) str),
)
