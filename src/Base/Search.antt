-- ===== src/Base/Search.antt =====
-- The functions of the package strings that look for a text in a text, cut and split it.
use abcoder.Base.{
  ℕ, suc, ◌-◌, ◌≡◌, refl, Bool, true, false, ◌&&◌, ◌||◌, List, [], ◌∷◌, ◌++◌, Option, none, some,
  arith, leb, ◌==◌, if◌then◌else◌, length, take, drop,
}
use abcoder.Base.Text.{Text, text_eq}

-- strings.HasPrefix.
unfoldable pub starts_with : Text → Text → Bool
starts_with [] s = true
starts_with (c ∷ sep) [] = false
starts_with (c ∷ sep) (d ∷ s) = c == d && starts_with sep s

-- strings.Index.
abbrev pub later : Option ℕ → Option ℕ
later none = none
later (some i) = some (suc i)

unfoldable pub index_text : Text → Text → Option ℕ
unfolding starts_with
index_text sep [] = if starts_with sep [] then some 0 else none
index_text sep (c ∷ s) =
    let rest = index_text sep s in if starts_with sep (c ∷ s) then some 0 else later rest

-- strings.LastIndex.
abbrev pub last_or : Bool → Option ℕ → Option ℕ
last_or hit (some i) = some (suc i)
last_or true none = some 0
last_or false none = none

unfoldable pub last_index_text : Text → Text → Option ℕ
unfolding starts_with
last_index_text sep [] = if starts_with sep [] then some 0 else none
last_index_text sep (c ∷ s) = last_or (starts_with sep (c ∷ s)) (last_index_text sep s)

-- strings.Contains.
abbrev pub is_some {ℓ} : {A : Type ℓ} → Option A → Bool
is_some none = false
is_some (some a) = true

unfoldable pub contains_text : Text → Text → Bool
unfolding index_text
contains_text s sep = is_some (index_text sep s)

-- strings.HasSuffix.
unfoldable pub ends_with : Text → Text → Bool
ends_with end s = leb (length end) (length s) && text_eq (drop (length s - length end) s) end

-- strings.TrimPrefix and TrimSuffix.
unfoldable pub trim_prefix : Text → Text → Text
unfolding starts_with
trim_prefix s head = if starts_with head s then drop (length head) s else s

unfoldable pub trim_suffix : Text → Text → Text
unfolding ends_with
trim_suffix s end = if ends_with end s then take (length s - length end) s else s

-- strings.TrimSpace, for the white space of ASCII.
unfoldable pub is_space : ℕ → Bool
is_space c = c == 32 || (leb 9 c && leb c 13)

unfoldable pub trim_left : Text → Text
unfolding is_space
trim_left [] = []
trim_left (c ∷ s) = let rest = trim_left s in if is_space c then rest else c ∷ s

unfoldable pub trim_right : Text → Text
unfolding is_space
trim_right [] = []
trim_right (c ∷ s) =
    let rest = trim_right s in if is_space c && text_eq rest [] then [] else c ∷ rest

unfoldable pub trim_space : Text → Text
unfolding trim_left trim_right
trim_space s = trim_right (trim_left s)

-- strings.Split by one byte.
abbrev pub cons_head : ℕ → List Text → List Text
cons_head c [] = (c ∷ []) ∷ []
cons_head c (p ∷ ps) = (c ∷ p) ∷ ps

unfoldable pub split_byte : ℕ → Text → List Text
split_byte b [] = [] ∷ []
split_byte b (c ∷ s) = let rest = split_byte b s in if c == b then [] ∷ rest else cons_head c rest

-- strings.Split by two equal bytes, from the left, as "::" splits a qualified name. The flag says
-- that the byte before was the first of a pair.
unfoldable pub split_double : ℕ → Bool → Text → List Text
split_double b false [] = [] ∷ []
split_double b true [] = (b ∷ []) ∷ []
split_double b false (c ∷ s) =
    let pending = split_double b true s in
    let rest = split_double b false s in if c == b then pending else cons_head c rest
split_double b true (c ∷ s) =
    let split = split_double b false s in
    if c == b then [] ∷ split else cons_head b (cons_head c split)

-- strings.ReplaceAll of one byte by a text.
unfoldable pub replace_byte : ℕ → Text → Text → Text
replace_byte b new [] = []
replace_byte b new (c ∷ s) =
    let rest = replace_byte b new s in if c == b then new ++ rest else c ∷ rest

pub starts_with-append : (p s : Text) → starts_with p (p ++ s) ≡ true
unfolding starts_with
starts_with-append [] s = refl
starts_with-append (c ∷ p) s = ground (arith, starts_with-append p s)

-- What starts with a text is that text and what is behind it.
pub starts_with-split : (p s : Text) → starts_with p s ≡ true → p ++ drop (length p) s ≡ s
unfolding starts_with
starts_with-split [] s h = refl
starts_with-split (c ∷ p) [] h = absurd (cc)
starts_with-split (c ∷ p) (d ∷ s) h = ground (arith, starts_with-split p s)
