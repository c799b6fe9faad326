-- ===== src/Lsp/Position.antt =====
-- Positions and ranges of lang/lsp/lsp.go, and the offsets of lang/lsp/utils.go and
-- lang/utils/strings.go. Lines and characters count from 0, and -1 stands for no offset.
-- The pool and the cache of line tables hold what CountLines computes, so they are left out.
use abcoder.Base.{
  ℕ, suc, Bool, true, false, ◌&&◌, ◌||◌, List, [], ◌∷◌, Option, none, some, ◌==◌, if◌then◌else◌,
  length, get_elem?, take, leb,
}
use abcoder.Base.Int.{ℤ, pos, negsuc, ◌+ℤ◌, ◌-ℤ◌, ltb_ℤ, leb_ℤ}
use abcoder.Base.Text.{Text}

pub record Position : Type 0 where
  pub line : ℤ
  pub character : ℤ

pub record Range : Type 0 where
  pub start : Position
  pub end : Position

unfoldable pub eq_ℤ : ℤ → ℤ → Bool
eq_ℤ a b = leb_ℤ a b && leb_ℤ b a

unfoldable pub position_less : Position → Position → Bool
unfolding eq_ℤ
position_less r s =
    if eq_ℤ r.line s.line then ltb_ℤ r.character s.character else ltb_ℤ r.line s.line

unfoldable pub is_position_in_range : Position → Range → Bool → Bool
unfolding eq_ℤ
is_position_in_range p r close =
    if ltb_ℤ p.line r.start.line || ltb_ℤ r.end.line p.line
    then false
    else if eq_ℤ p.line r.start.line && ltb_ℤ p.character r.start.character
    then false
    else if eq_ℤ p.line r.end.line
    then (if close then leb_ℤ p.character r.end.character else ltb_ℤ p.character r.end.character)
    else true

unfoldable pub include : Range → Range → Bool
unfolding is_position_in_range
include a b = is_position_in_range b.start a false && is_position_in_range b.end a true

-- The offsets behind the newlines of a text that starts at an offset.
unfoldable pub line_starts : ℕ → Text → List ℤ
line_starts i [] = []
line_starts i (c ∷ s) =
    if c == b'\n' then pos (suc i) ∷ line_starts (suc i) s else line_starts (suc i) s

unfoldable pub count_lines : Text → List ℤ
unfolding line_starts
count_lines text = pos 0 ∷ line_starts 0 text

-- The line's offset and the difference of the characters, where the table has the line.
unfoldable pub offset_on : Option ℤ → ℤ → ℤ → ℤ
offset_on none c base = negsuc 0
offset_on (some o) c base = o +ℤ c -ℤ base

unfoldable pub line_at : List ℤ → ℤ → Option ℤ
line_at lines (pos l) = get_elem? lines l
line_at lines (negsuc l) = none

unfoldable pub relative_position_with_lines : List ℤ → Position → Position → ℤ
unfolding offset_on line_at
relative_position_with_lines lines base p =
    offset_on (line_at lines (p.line -ℤ base.line)) p.character base.character

unfoldable pub get_distance : Text → Position → Position → ℤ
unfolding offset_on line_at count_lines
get_distance text start p =
    offset_on (line_at (count_lines text) (p.line -ℤ start.line)) p.character start.character

-- text[:distance], or nothing.
unfoldable pub head_to : Text → ℤ → Text
head_to text (pos d) = if leb (length text) d then [] else take d text
head_to text (negsuc d) = []

unfoldable pub chunk_head : Text → Position → Position → Text
unfolding get_distance head_to
chunk_head text text_pos p = head_to text (get_distance text text_pos p)

unfoldable pub position_offset : Text → Position → ℤ
unfolding relative_position_with_lines count_lines
position_offset text p =
    if ltb_ℤ p.line (pos 0) || ltb_ℤ p.character (pos 0)
    then negsuc 0
    else relative_position_with_lines (count_lines text)
        (record { line = pos 0; character = pos 0 }) p
