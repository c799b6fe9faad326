-- ===== src/Cpp/Paren.antt =====
-- findMatchingParen finds the parenthesis that closes a balanced text.
use abcoder.Base.{
  ℕ, suc, ◌+◌, ◌≡◌, ◌≢◌, refl, ap, ◌∙◌, [], ◌∷◌, ◌++◌, some, arith, length, length-append,
  get_elem?, append_assoc,
}
use abcoder.Base.Int.{ℤ, pos, negsuc, ◌+ℤ◌, eq_of_parts, int_laws}
use abcoder.Base.Text.{Text}
use abcoder.Base.Slices.{drop-length-append}
use abcoder.Cpp.Function.{match_paren, find_matching_paren}

get_elem?-length : (s : Text) (c : ℕ) (t : Text) → get_elem? (s ++ c ∷ t) (length s) ≡ some c
get_elem?-length [] c t = refl
get_elem?-length (d ∷ s) c t = get_elem?-length s c t

-- Texts whose parentheses match.
pub data Balanced : Text → Type 0 where
  empty : Balanced []
  plain : (c : ℕ) (s : Text) → c ≢ b'(' → c ≢ b')' → Balanced s → Balanced (c ∷ s)
  nested : (s t : Text) → Balanced s → Balanced t → Balanced (b'(' ∷ (s ++ b')' ∷ t))

up : (d : ℕ) → pos d +ℤ pos 1 ≡ pos (suc d)
up d = eq_of_parts _ _ (omega int_laws)

down : (d : ℕ) → pos (suc d) +ℤ negsuc 0 ≡ pos d
down d = eq_of_parts _ _ (omega int_laws)

match_paren_open :
    (s : Text) (i d : ℕ) → match_paren (b'(' ∷ s) i (pos d) ≡ match_paren s (suc i) (pos (suc d))
unfolding match_paren
match_paren_open s i d = ap (λ k. match_paren s (suc i) k) (up d)

match_paren_close :
    (s : Text) (i d : ℕ)
    → match_paren (b')' ∷ s) i (pos (suc (suc d))) ≡ match_paren s (suc i) (pos (suc d))
unfolding match_paren
match_paren_close s i d = rw (down (suc d)) (ground arith)

match_paren_end : (s : Text) (i : ℕ) → match_paren (b')' ∷ s) i (pos 1) ≡ pos i
unfolding match_paren
match_paren_end s i = rw (down 0) (ground arith)

match_paren_plain :
    (c : ℕ) (s : Text) (i : ℕ) (d : ℤ)
    → c ≢ b'('
    → c ≢ b')'
    → match_paren (c ∷ s) i d ≡ match_paren s (suc i) d
unfolding match_paren
match_paren_plain c s i d h k = ground arith

match_paren-Balanced :
    (s : Text)
    → Balanced s
    → (rest : Text) (i d : ℕ)
    → match_paren (s ++ rest) i (pos (suc d)) ≡ match_paren rest (i + length s) (pos (suc d))
match_paren-Balanced s empty rest i d = ap (λ j. match_paren rest j (pos (suc d))) (omega arith)
match_paren-Balanced s (plain c s' h k b) rest i d =
    match_paren_plain c (s' ++ rest) i (pos (suc d)) h k
    ∙ match_paren-Balanced s' b rest (suc i) d
    ∙ ap (λ j. match_paren rest j (pos (suc d))) (omega arith)
match_paren-Balanced s (nested s' t b b') rest i d =
    ap (λ u. match_paren (b'(' ∷ u) i (pos (suc d))) (append_assoc s' (b')' ∷ t) rest)
    ∙ match_paren_open (s' ++ b')' ∷ (t ++ rest)) i (suc d)
    ∙ match_paren-Balanced s' b (b')' ∷ (t ++ rest)) (suc i) (suc d)
    ∙ match_paren_close (t ++ rest) (suc i + length s') d
    ∙ match_paren-Balanced t b' rest (suc (suc i + length s')) d
    ∙ ap (λ j. match_paren rest j (pos (suc d))) (omega (arith, length-append s' (b')' ∷ t)))

-- findMatchingParen, at the open parenthesis of a balanced text in parentheses, finds the closing
-- one, whatever stands before and behind.
pub find_matching_paren-Balanced :
    (before s behind : Text)
    → Balanced s
    → find_matching_paren (before ++ b'(' ∷ (s ++ b')' ∷ behind)) (pos (length before))
      ≡ pos (suc (length before + length s))
unfolding find_matching_paren
find_matching_paren-Balanced before s behind b =
    let text = b'(' ∷ (s ++ b')' ∷ behind) in
    rw (drop-length-append before text, get_elem?-length before b'(' (s ++ b')' ∷ behind))
      (match_paren_open (s ++ b')' ∷ behind) (length before) 0
        ∙ match_paren-Balanced s b (b')' ∷ behind) (suc (length before)) 0
        ∙ match_paren_end behind (suc (length before) + length s)
        ∙ ap pos (omega arith))
