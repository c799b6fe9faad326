-- ===== src/Lsp/Tokens.antt =====
-- FindSingle of lang/lsp/utils.go: the token to the left of a separator in a text.
use abcoder.Base.{
  ◌≡◌, ◌⊎◌, inl, inr, refl, Bool-cases, Option-cases, ◌-◌, true, ◌&&◌, List, [], ◌∷◌, Option, none,
  some, arith, leb, if◌then◌else◌, length, get_elem?, take, drop,
}
use abcoder.Base.Int.{ℤ, pos, negsuc, pos_part, ◌+ℤ◌, ◌-ℤ◌, ltb_ℤ, leb_ℤ}
use abcoder.Base.Text.{Text}
use abcoder.Base.Result.{Result, ok, panic, deref, ◌>>=◌, bind_ok}
use abcoder.Base.Search.{index_text}
use abcoder.Lsp.Symbol.{Token}
use abcoder.Lsp.Position.{Position, relative_position_with_lines}

-- text[s:e].
unfoldable pub slice_text : Text → ℤ → ℤ → Result Text
slice_text text (pos s) (pos e) =
    if leb s e && leb e (length text) then ok (take (e - s) (drop s text)) else panic
slice_text text (pos s) (negsuc e) = panic
slice_text text (negsuc s) e = panic

-- The loop over the tokens from `i` on, of which `end` is the last: the first one that starts behind
-- the offset has its left neighbour as the answer.
unfoldable pub token_left : List ℤ → Position → List Token → ℤ → ℤ → ℤ → ℤ
token_left lines text_pos [] i end p = negsuc 0
token_left lines text_pos (t ∷ ts) i end p =
    let rest = token_left lines text_pos ts (i +ℤ pos 1) end p in
    if leb_ℤ i end
    then (if ltb_ℤ p (relative_position_with_lines lines text_pos t.location.range.start)
        then i -ℤ pos 1
        else rest)
    else negsuc 0

abbrev pub element {ℓ} : {A : Type ℓ} → List A → ℤ → Option A
element xs (pos i) = get_elem? xs i
element xs (negsuc i) = none

unfoldable pub clamp_start : ℤ → ℤ
clamp_start start = if ltb_ℤ start (pos 0) then pos 0 else start

unfoldable pub clamp_end : List Token → ℤ → ℤ
clamp_end tokens end = if leb_ℤ (pos (length tokens)) end then pos (length tokens) -ℤ pos 1 else end

unfoldable pub find_in : Text → List ℤ → Position → List Token → Text → ℤ → ℤ → Result ℤ
unfolding slice_text index_text token_left
find_in text lines text_pos tokens sep start end = do
  first ← deref (element tokens start)
  last ← deref (element tokens end)
  let s_pos = relative_position_with_lines lines text_pos first.location.range.start
  between ←
      slice_text text s_pos (relative_position_with_lines lines text_pos last.location.range.end)
  ok (elim (index_text sep between) [
    | none ↦ negsuc 0
    | some i ↦ token_left lines text_pos (drop (pos_part start) tokens) start end (pos i +ℤ s_pos)
  ])

unfoldable pub find_single : Text → List ℤ → Position → List Token → Text → ℤ → ℤ → Result ℤ
unfolding find_in clamp_start clamp_end
find_single text lines text_pos tokens sep start end =
    if leb_ℤ (pos (length tokens)) (clamp_start start)
    then ok (negsuc 0)
    else find_in text lines text_pos tokens sep (clamp_start start) (clamp_end tokens end)

-- the answer of the loop is -1 or the index of a token, below the last one
abbrev pub IsTokenOf : ℤ → ℤ → Type 0
IsTokenOf end k = (leb_ℤ (negsuc 0) k ≡ true) × ((k ≡ negsuc 0) ⊎ (ltb_ℤ k end ≡ true))

pub left-IsTokenOf :
    (i end : ℤ) → leb_ℤ (pos 0) i ≡ true → leb_ℤ i end ≡ true → IsTokenOf end (i -ℤ pos 1)
unfolding ◌-ℤ◌
left-IsTokenOf i end h k = (ground arith, inr (ground arith))

pub next_index : (i : ℤ) → leb_ℤ (pos 0) i ≡ true → leb_ℤ (pos 0) (i +ℤ pos 1) ≡ true
unfolding ◌+ℤ◌
next_index i h = ground arith

token_left-IsTokenOf :
    (lines : List ℤ) (text_pos : Position) (ts : List Token) (i end p : ℤ)
    → leb_ℤ (pos 0) i ≡ true
    → IsTokenOf end (token_left lines text_pos ts i end p)
unfolding token_left
token_left-IsTokenOf lines text_pos [] i end p h = (ground arith, inl refl)
token_left-IsTokenOf lines text_pos (t ∷ ts) i end p h =
    let next = token_left-IsTokenOf lines text_pos ts (i +ℤ pos 1) end p (next_index i h) in
    elim (Bool-cases (leb_ℤ i end)) [
      | inr past ↦ rw past (ground arith, inl refl)
      | inl inside ↦
          elim (Bool-cases
            (ltb_ℤ p (relative_position_with_lines lines text_pos t.location.range.start))) [
              | inl behind ↦ rw (inside, behind) (left-IsTokenOf i end h inside)
              | inr before ↦ rw (inside, before) next
            ]
    ]

pub clamp_end_lem : (ts : List Token) (end : ℤ) → ltb_ℤ (clamp_end ts end) (pos (length ts)) ≡ true
unfolding clamp_end ◌-ℤ◌
clamp_end_lem ts end = ground arith

pub clamp_start_lem : (start : ℤ) → leb_ℤ (pos 0) (clamp_start start) ≡ true
unfolding clamp_start
clamp_start_lem start = ground arith

find_in-IsTokenOf :
    (text : Text) (lines : List ℤ) (text_pos : Position) (tokens : List Token) (sep : Text)
    (start end k : ℤ)
    → leb_ℤ (pos 0) start ≡ true
    → find_in text lines text_pos tokens sep start end ≡ ok k
    → IsTokenOf end k
unfolding find_in
find_in-IsTokenOf text lines text_pos tokens sep start end k h e =
    bind_ok (deref (element tokens start)) _ e λ first e₁ h₁.
      bind_ok (deref (element tokens end)) _ h₁ λ last e₂ h₂.
        let s_pos = relative_position_with_lines lines text_pos first.location.range.start in
        bind_ok
          (slice_text text s_pos
            (relative_position_with_lines lines text_pos last.location.range.end))
          _ h₂
          λ between e₃ h₃. elim (Option-cases (index_text sep between)) [
            | inl missing ↦
                let is_k : negsuc 0 ≡ k = ground (arith, missing) in
                rw (← is_k) (ground arith, inl refl)
            | inr (i, found) ↦
                let left =
                  token_left lines text_pos (drop (pos_part start) tokens) start end
                    (pos i +ℤ s_pos) in
                let is_k : left ≡ k = ground (arith, found) in
                rw (← is_k) (
                  token_left-IsTokenOf lines text_pos (drop (pos_part start) tokens) start end
                    (pos i +ℤ s_pos) h)
          ]

-- What FindSingle returns is -1 or the index of a token, for every range of tokens asked for.
pub find_single-bounds :
    (text : Text) (lines : List ℤ) (text_pos : Position) (tokens : List Token) (sep : Text)
    (start end k : ℤ)
    → find_single text lines text_pos tokens sep start end ≡ ok k
    → (leb_ℤ (negsuc 0) k ≡ true) × (ltb_ℤ k (pos (length tokens)) ≡ true)
unfolding find_single
find_single-bounds text lines text_pos tokens sep start end k h =
    elim (Bool-cases (leb_ℤ (pos (length tokens)) (clamp_start start))) [
      | inl out ↦ (ground (arith, out), ground (arith, out))
      | inr some_left ↦
          let e : find_in text lines text_pos tokens sep (clamp_start start) (clamp_end tokens end)
              ≡ ok k =
            ground (arith, some_left) in
          let (low, high) =
            find_in-IsTokenOf text lines text_pos tokens sep (clamp_start start)
              (clamp_end tokens end) k (clamp_start_lem start) e in
          (low, ground (arith, high, clamp_end_lem tokens end))
    ]
