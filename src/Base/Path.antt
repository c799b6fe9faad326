-- ===== src/Base/Path.antt =====
-- The functions of the package path/filepath that take slash-separated paths apart.
use abcoder.Base.{
  ℕ, suc, Bool, false, ◌&&◌, List, [], ◌∷◌, ◌++◌, Option, none, some, ◌==◌, if◌then◌else◌, take,
  drop,
}
use abcoder.Base.Text.{Text, codes, text_eq}
use abcoder.Base.Search.{split_byte, last_index_text}

abbrev is_rooted : Text → Bool
is_rooted [] = false
is_rooted (c ∷ s) = c == b'/'

-- A step of Clean: the segments so far, the last one first.
abbrev up : Bool → List Text → List Text
up rooted [] = if rooted then [] else codes ".." ∷ []
up rooted (p ∷ ps) = if text_eq p (codes "..") then codes ".." ∷ p ∷ ps else ps

unfoldable pub clean_segment : Bool → List Text → Text → List Text
clean_segment rooted done p =
    if text_eq p []
    then done
    else if text_eq p (codes ".")
    then done
    else if text_eq p (codes "..")
    then up rooted done
    else p ∷ done

unfoldable pub clean_segments : Bool → List Text → List Text → List Text
unfolding clean_segment
clean_segments rooted done [] = done
clean_segments rooted done (p ∷ ps) = clean_segments rooted (clean_segment rooted done p) ps

unfoldable pub join_last_first : List Text → Text → Text
join_last_first [] end = end
join_last_first (p ∷ []) end = p ++ end
join_last_first (p ∷ q ∷ ps) end = join_last_first (q ∷ ps) (b'/' ∷ p ++ end)

-- filepath.Clean.
unfoldable pub path_clean : Text → Text
unfolding clean_segments join_last_first split_byte
path_clean s =
    let joined = join_last_first (clean_segments (is_rooted s) [] (split_byte b'/' s)) [] in
    if is_rooted s then b'/' ∷ joined else if text_eq joined [] then codes "." else joined

abbrev pub last_slash : Text → Option ℕ
last_slash s = last_index_text (codes "/") s

-- filepath.Dir.
unfoldable pub path_dir : Text → Text
unfolding path_clean last_index_text
path_dir s = path_clean (elim (last_slash s) [ some i ↦ take (suc i) s | none ↦ [] ])

-- filepath.Base.
unfoldable pub strip_slashes : Text → Text
strip_slashes [] = []
strip_slashes (c ∷ s) =
    let rest = strip_slashes s in if c == b'/' && text_eq rest [] then [] else c ∷ rest

abbrev behind_slash : Text → Text
behind_slash s = elim (last_slash s) [ some i ↦ drop (suc i) s | none ↦ s ]

unfoldable pub path_base : Text → Text
unfolding strip_slashes last_index_text
path_base s =
    if text_eq s []
    then codes "."
    else if text_eq (strip_slashes s) []
    then codes "/"
    else behind_slash (strip_slashes s)

-- filepath.Join of two elements: an empty one is left out.
unfoldable pub path_join : Text → Text → Text
unfolding path_clean
path_join [] b = if text_eq b [] then [] else path_clean b
path_join (c ∷ a) b = if text_eq b [] then path_clean (c ∷ a) else path_clean (c ∷ a ++ b'/' ∷ b)
