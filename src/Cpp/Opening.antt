-- ===== src/Cpp/Opening.antt =====
-- The open parenthesis that FunctionSymbol (lang/cpp/spec.go) takes for the one of the parameters.
use abcoder.Base.{
  ℕ, zero, suc, Option, ◌-◌, ◌+◌, ◌<◌, ◌≡◌, ◌≢◌, refl, [], ◌∷◌, none, some, arith, get_elem?, drop,
  ap, sym, ◌∙◌, Bool-cases, inl, inr, leb, length,
}
use abcoder.Base.Int.{ℤ, pos, negsuc, ◌≤ℤ◌}
use abcoder.Base.Text.{Text, codes}
use abcoder.Base.Search.{index_text, starts_with}
use native.Mathlib.Nat.{suc-add}
use abcoder.Cpp.Function.{param_open}
use abcoder.Cpp.Params.{}

get_elem?-drop : (n k : ℕ) (s : Text) → get_elem? (drop n s) k ≡ get_elem? s (n + k)
get_elem?-drop zero k s = ap (get_elem? s) (omega arith)
get_elem?-drop (suc n) k [] = refl
get_elem?-drop (suc n) k (c ∷ s) = get_elem?-drop n k s ∙ sym (ap (get_elem? (c ∷ s)) (suc-add n k))

index_text-open :
    (s : Text) (i : ℕ)
    → index_text (codes "(") s ≡ some i
    → (get_elem? s i ≡ some b'(') × ((j : ℕ) → j < i → get_elem? s j ≢ some b'(')
unfolding index_text starts_with
index_text-open [] i h = absurd (cc)
index_text-open (c ∷ s) zero h = (ground arith, λ j lt. absurd (omega arith))
index_text-open (c ∷ s) (suc i) h =
    let (found, first) = index_text-open s i (ground arith) in (found, later_first first)
  where
    later_first :
        ((j : ℕ) → j < i → get_elem? s j ≢ some b'(')
        → (j : ℕ) → j < suc i
        → get_elem? (c ∷ s) j ≢ some b'('
    later_first first zero lt e = ground (arith, h)
    later_first first (suc j) lt e = first j (omega arith) e

-- The byte is the first open parenthesis from the offset on.
pub record IsOpen (text : Text) (off : ℤ) (k : ℕ) : Type 0 where
  pub behind : off ≤ℤ pos k
  pub opens : get_elem? text k ≡ some b'('
  pub first : (j : ℕ) → off ≤ℤ pos j → j < k → get_elem? text j ≢ some b'('

opened_at :
    (text : Text) (o k : ℕ) (i : Option ℕ)
    → index_text (codes "(") (drop o text) ≡ i
    → elim i [ some j ↦ pos (o + j) | none ↦ negsuc 0 ] ≡ pos k
    → IsOpen text (pos o) k
opened_at text o k none e h = absurd (cc)
opened_at text o k (some i) e h =
    let same : o + i ≡ k = cc in
    let (found, first) = index_text-open (drop o text) i e in
    rw (← same) (record {
      behind = omega arith;
      opens = sym (get_elem?-drop o i text) ∙ found;
      first = λ j le lt at.
          let there : o + (j - o) ≡ j = omega arith in
          first (j - o) (omega arith)
            (get_elem?-drop o (j - o) text ∙ ap (get_elem? text) there ∙ at);
    })

pub param_open-IsOpen :
    (text : Text) (off : ℤ) (k : ℕ) → param_open text off ≡ pos k → IsOpen text off k
unfolding param_open
param_open-IsOpen text (negsuc o) k h = absurd (cc)
param_open-IsOpen text (pos o) k h = elim (Bool-cases (leb (length text) o)) [
  | inl past ↦ absurd (ground arith)
  | inr inside ↦ opened_at text o k (index_text (codes "(") (drop o text)) refl (rw inside at h)
]
