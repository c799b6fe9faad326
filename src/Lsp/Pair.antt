-- ===== src/Lsp/Pair.antt =====
-- FindPair of lang/lsp/utils.go: the tokens between a pair of brackets in a text. The brackets are
-- ASCII characters, so the loop over the runes is a loop over the bytes.
use abcoder.Base.{
  ◌≡◌, refl, ◌⊎◌, inl, inr, ℕ, suc, Bool, true, false, ◌&&◌, List, [], ◌∷◌, Option, none, some,
  arith, ◌==◌, if◌then◌else◌, length, drop, Bool-cases,
}
use abcoder.Base.Int.{ℤ, pos, negsuc, pos_part, ◌+ℤ◌, ◌-ℤ◌, ltb_ℤ, leb_ℤ}
use abcoder.Base.Text.{Text}
use abcoder.Base.Result.{Result, ok, panic, deref, ◌>>=◌, bind_ok}
use abcoder.Lsp.Symbol.{Token}
use abcoder.Lsp.Position.{Position, eq_ℤ, relative_position_with_lines}
use abcoder.Lsp.Tokens.{
  slice_text, element, clamp_start, clamp_end, IsTokenOf, clamp_end_lem, clamp_start_lem,
  left-IsTokenOf, next_index,
}

-- `rchar == '>' && ctext[i-1] == '-'`; there is no byte before the first one.
unfoldable pub is_arrow : ℕ → Option ℕ → Result Bool
is_arrow rchar none = if rchar == b'>' then panic else ok false
is_arrow rchar (some before) = ok (rchar == b'>' && before == b'-')

module _ (lchar rchar not_allow : ℕ) where
  -- The loop over the text: the places of the first open bracket and of the one that closes it.
  unfoldable pub scan_pair : Text → ℕ → Option ℕ → ℤ → Option ℕ → Result (Option (ℕ × ℕ))
  unfolding is_arrow eq_ℤ
  scan_pair [] i before l_count l_arrow = ok none
  scan_pair (c ∷ s) i before l_count l_arrow =
      let opened =
        scan_pair s (suc i) (some c) (l_count +ℤ pos 1)
          (if eq_ℤ (l_count +ℤ pos 1) (pos 1) then some i else l_arrow) in
      let closed = scan_pair s (suc i) (some c) (l_count -ℤ pos 1) l_arrow in
      let same = scan_pair s (suc i) (some c) l_count l_arrow in
      if c == not_allow && eq_ℤ l_count (pos 0)
      then ok none
      else if c == lchar
      then opened
      else if c == rchar
      then (is_arrow rchar before >>= λ arrow.
          if arrow
          then same
          else (if eq_ℤ (l_count -ℤ pos 1) (pos 0)
              then ok (elim l_arrow [ some l ↦ some (l, i) | none ↦ none ])
              else closed))
      else same

-- The loop over the tokens from `i` on, with the left token found so far.
unfoldable pub pair_tokens : List ℤ → Position → List Token → ℤ → ℤ → ℤ → ℤ → ℤ → ℤ × ℤ
unfolding eq_ℤ
pair_tokens lines text_pos [] i end l r s = (s, negsuc 0)
pair_tokens lines text_pos (t ∷ ts) i end l r s =
    let rel = relative_position_with_lines lines text_pos t.location.range.start in
    let s' = if leb_ℤ l rel && eq_ℤ s (negsuc 0) then i else s in
    let rest = pair_tokens lines text_pos ts (i +ℤ pos 1) end l r s' in
    if leb_ℤ i end then (if ltb_ℤ r rel then (s', i -ℤ pos 1) else rest) else (s, negsuc 0)

unfoldable pub pair_at : List ℤ → Position → List Token → ℤ → ℤ → ℤ → Option (ℕ × ℕ) → ℤ × ℤ
unfolding pair_tokens
pair_at lines text_pos tokens start end start_index none = (negsuc 0, negsuc 0)
pair_at lines text_pos tokens start end start_index (some (l, r)) =
    pair_tokens lines text_pos (drop (pos_part start) tokens) start end (pos l +ℤ start_index)
      (pos r +ℤ start_index) (negsuc 0)

unfoldable pub pair_in : Text → List ℤ → Position → List Token → ℕ → ℕ → ℤ → ℤ → ℕ → Result (ℤ × ℤ)
unfolding scan_pair pair_at slice_text
pair_in text lines text_pos tokens lchar rchar start end not_allow = do
  first ← deref (element tokens start)
  let start_index = relative_position_with_lines lines text_pos first.location.range.start
  ctext ← slice_text text start_index (pos (length text))
  found ← scan_pair lchar rchar not_allow ctext 0 none (pos 0) none
  ok (pair_at lines text_pos tokens start end start_index found)

unfoldable pub find_pair :
    Text → List ℤ → Position → List Token → ℕ → ℕ → ℤ → ℤ → ℕ → Result (ℤ × ℤ)
unfolding pair_in clamp_start clamp_end
find_pair text lines text_pos tokens lchar rchar start end not_allow =
    if leb_ℤ (pos (length tokens)) (clamp_start start)
    then ok (negsuc 0, negsuc 0)
    else pair_in text lines text_pos tokens lchar rchar (clamp_start start) (clamp_end tokens end)
        not_allow

-- -1, or the index of a token up to the last one
abbrev pub IsIndexOf : ℤ → ℤ → Type 0
IsIndexOf end k = (leb_ℤ (negsuc 0) k ≡ true) × ((k ≡ negsuc 0) ⊎ (leb_ℤ k end ≡ true))

new_left-IsIndexOf :
    (test : Bool) (i end s : ℤ)
    → leb_ℤ (pos 0) i ≡ true
    → leb_ℤ i end ≡ true
    → IsIndexOf end s
    → IsIndexOf end (if test then i else s)
new_left-IsIndexOf true i end s h k w = (ground arith, inr k)
new_left-IsIndexOf false i end s h k w = w

IsTokenOf-IsIndexOf : (end k : ℤ) → IsTokenOf end k → IsIndexOf end k
IsTokenOf-IsIndexOf end k (low, inl e) = (low, inl e)
IsTokenOf-IsIndexOf end k (low, inr h) = (low, inr (ground arith))

pair_tokens-IsIndexOf :
    (lines : List ℤ) (text_pos : Position) (ts : List Token) (i end l r s : ℤ)
    → leb_ℤ (pos 0) i ≡ true
    → IsIndexOf end s
    → IsIndexOf end (pair_tokens lines text_pos ts i end l r s).0
      × IsIndexOf end (pair_tokens lines text_pos ts i end l r s).1
unfolding pair_tokens
pair_tokens-IsIndexOf lines text_pos [] i end l r s h w = (w, (refl, inl refl))
pair_tokens-IsIndexOf lines text_pos (t ∷ ts) i end l r s h w =
    let rel = relative_position_with_lines lines text_pos t.location.range.start in
    let test = leb_ℤ l rel && eq_ℤ s (negsuc 0) in
    elim (Bool-cases (leb_ℤ i end)) [
      | inr past ↦ rw past (w, (refl, inl refl))
      | inl inside ↦
          let w' = new_left-IsIndexOf test i end s h inside w in
          let next =
            pair_tokens-IsIndexOf lines text_pos ts (i +ℤ pos 1) end l r (if test then i else s)
              (next_index i h) w' in
          elim (Bool-cases (ltb_ℤ r rel)) [
            | inl behind ↦
                rw (inside, behind)
                  (w', IsTokenOf-IsIndexOf end (i -ℤ pos 1) (left-IsTokenOf i end h inside))
            | inr before ↦ rw (inside, before) next
          ]
    ]

pair_at-IsIndexOf :
    (lines : List ℤ) (text_pos : Position) (tokens : List Token) (start end start_index : ℤ)
    (found : Option (ℕ × ℕ))
    → leb_ℤ (pos 0) start ≡ true
    → IsIndexOf end (pair_at lines text_pos tokens start end start_index found).0
      × IsIndexOf end (pair_at lines text_pos tokens start end start_index found).1
unfolding pair_at
pair_at-IsIndexOf lines text_pos tokens start end start_index none h =
    ((refl, inl refl), (refl, inl refl))
pair_at-IsIndexOf lines text_pos tokens start end start_index (some (l, r)) h =
    pair_tokens-IsIndexOf lines text_pos (drop (pos_part start) tokens) start end
      (pos l +ℤ start_index) (pos r +ℤ start_index) (negsuc 0) h (refl, inl refl)

pair_in-IsIndexOf :
    (text : Text) (lines : List ℤ) (text_pos : Position) (tokens : List Token) (lchar rchar : ℕ)
    (start end : ℤ) (not_allow : ℕ) (s e : ℤ)
    → leb_ℤ (pos 0) start ≡ true
    → pair_in text lines text_pos tokens lchar rchar start end not_allow ≡ ok (s, e)
    → IsIndexOf end s × IsIndexOf end e
unfolding pair_in
pair_in-IsIndexOf text lines text_pos tokens lchar rchar start end not_allow s e low h =
    bind_ok (deref (element tokens start)) _ h λ first e₁ h₁.
      let start_index = relative_position_with_lines lines text_pos first.location.range.start in
      bind_ok (slice_text text start_index (pos (length text))) _ h₁ λ ctext e₂ h₂.
        bind_ok (scan_pair lchar rchar not_allow ctext 0 none (pos 0) none) _ h₂ λ found e₃ h₃.
          let got = pair_at lines text_pos tokens start end start_index found in
          let (ps, pe) = pair_at-IsIndexOf lines text_pos tokens start end start_index found low in
          let is_s : got.0 ≡ s = ground arith in
          let is_e : got.1 ≡ e = ground arith in (rw (← is_s) ps, rw (← is_e) pe)

below_length :
    (tokens : List Token) (end k : ℤ)
    → IsIndexOf (clamp_end tokens end) k
    → (leb_ℤ (negsuc 0) k ≡ true) × (ltb_ℤ k (pos (length tokens)) ≡ true)
below_length tokens end k (low, high) = (low, ground (arith, high, clamp_end_lem tokens end))

within_end :
    (tokens : List Token) (end k : ℤ)
    → leb_ℤ (negsuc 0) end ≡ true
    → IsIndexOf (clamp_end tokens end) k
    → leb_ℤ k end ≡ true
unfolding clamp_end ◌-ℤ◌
within_end tokens end k low (lo, inl e) = rw e low
within_end tokens end k low (lo, inr h) = ground (arith, h)

-- What FindPair returns are two numbers that are each -1 or the index of a token, for every range of
-- tokens asked for.
pub find_pair-bounds :
    (text : Text) (lines : List ℤ) (text_pos : Position) (tokens : List Token) (lchar rchar : ℕ)
    (start end : ℤ) (not_allow : ℕ) (s e : ℤ)
    → find_pair text lines text_pos tokens lchar rchar start end not_allow ≡ ok (s, e)
    → ((leb_ℤ (negsuc 0) s ≡ true) × (ltb_ℤ s (pos (length tokens)) ≡ true))
      × ((leb_ℤ (negsuc 0) e ≡ true) × (ltb_ℤ e (pos (length tokens)) ≡ true))
unfolding find_pair
find_pair-bounds text lines text_pos tokens lchar rchar start end not_allow s e h =
    elim (Bool-cases (leb_ℤ (pos (length tokens)) (clamp_start start))) [
      | inl out ↦
          let is_s : negsuc 0 ≡ s = ground (arith, out) in
          let is_e : negsuc 0 ≡ e = ground (arith, out) in
          (rw (← is_s) (refl, ground arith), rw (← is_e) (refl, ground arith))
      | inr some_left ↦
          let found : pair_in text lines text_pos tokens lchar rchar (clamp_start start)
                (clamp_end tokens end) not_allow
              ≡ ok (s, e) =
            ground (arith, some_left) in
          let (ps, pe) =
            pair_in-IsIndexOf text lines text_pos tokens lchar rchar (clamp_start start)
              (clamp_end tokens end) not_allow s e (clamp_start_lem start) found in
          (below_length tokens end s ps, below_length tokens end e pe)
    ]

-- The right index is not behind the end of the range asked for.
pub find_pair-end :
    (text : Text) (lines : List ℤ) (text_pos : Position) (tokens : List Token) (lchar rchar : ℕ)
    (start end : ℤ) (not_allow : ℕ) (s e : ℤ)
    → leb_ℤ (negsuc 0) end ≡ true
    → find_pair text lines text_pos tokens lchar rchar start end not_allow ≡ ok (s, e)
    → leb_ℤ e end ≡ true
unfolding find_pair
find_pair-end text lines text_pos tokens lchar rchar start end not_allow s e low h =
    elim (Bool-cases (leb_ℤ (pos (length tokens)) (clamp_start start))) [
      | inl out ↦ let is_e : negsuc 0 ≡ e = ground (arith, out) in rw (← is_e) low
      | inr some_left ↦
          let found : pair_in text lines text_pos tokens lchar rchar (clamp_start start)
                (clamp_end tokens end) not_allow
              ≡ ok (s, e) =
            ground (arith, some_left) in
          let (ps, pe) =
            pair_in-IsIndexOf text lines text_pos tokens lchar rchar (clamp_start start)
              (clamp_end tokens end) not_allow s e (clamp_start_lem start) found in
          within_end tokens end e low pe
    ]
