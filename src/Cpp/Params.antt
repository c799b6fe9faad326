-- ===== src/Cpp/Params.antt =====
-- The loop of FunctionSymbol (lang/cpp/spec.go) lists exactly the tokens that pass its tests.
use abcoder.Base.{
  ℕ, zero, suc, ◌||◌, ◌+◌, ◌≡◌, refl, Bool, true, false, not, ◌&&◌, List, [], ◌∷◌, some, arith,
  get_elem?, ap, sym, ◌∙◌, Bool-cases, inl, inr,
}
use abcoder.Base.Int.{ℤ, pos}
use abcoder.Base.Text.{All, All-map}
use abcoder.Lsp.Position.{eq_ℤ}
use abcoder.Lsp.Symbol.{Token}
use abcoder.Cpp.Function.{counts, is_input, is_output, classify}

-- the token with this index is there and passes the test
abbrev pub At : (ℕ → Token → Bool) → List Token → ℤ → Type 0
At p ts k = (n : ℕ) × (k ≡ pos n) × (t : Token) × (get_elem? ts n ≡ some t) × (p n t ≡ true)

-- the same, in a list whose first index is `i`
abbrev pub AtFrom : (ℕ → Token → Bool) → ℕ → List Token → ℤ → Type 0
AtFrom p i ts k =
    (n : ℕ) × (k ≡ pos (i + n)) × (t : Token) × (get_elem? ts n ≡ some t) × (p (i + n) t ≡ true)

AtFrom-later :
    (p : ℕ → Token → Bool) (i : ℕ) (t : Token) (ts : List Token) (k : ℤ)
    → AtFrom p (suc i) ts k
    → AtFrom p i (t ∷ ts) k
AtFrom-later p i t ts k (n, e, u, found, h) =
    let same : suc i + n ≡ i + suc n = omega arith in
    (suc n, e ∙ ap pos same, u, found, ap (λ m. p m u) (sym same) ∙ h)

AtFrom-here :
    (p : ℕ → Token → Bool) (i : ℕ) (t : Token) (ts : List Token)
    → p i t ≡ true
    → AtFrom p i (t ∷ ts) (pos i)
AtFrom-here p i t ts h =
    let same : i ≡ i + 0 = omega arith in (0, ap pos same, t, refl, ap (λ m. p m t) (sym same) ∙ h)

pub AtFrom-zero : (p : ℕ → Token → Bool) (ts : List Token) (k : ℤ) → AtFrom p 0 ts k → At p ts k
AtFrom-zero p ts k (n, e, t, found, h) =
    let same : 0 + n ≡ n = omega arith in
    (n, e ∙ ap pos same, t, found, ap (λ m. p m t) (sym same) ∙ h)

module _ (offset : Token → ℤ) (l r name_off receiver : ℤ) where
  abbrev pub input_test : ℕ → Token → Bool
  input_test i t = counts t && is_input l r (offset t)

  abbrev pub output_test : ℕ → Token → Bool
  output_test i t =
      counts t && (not (is_input l r (offset t)) && is_output name_off receiver (offset t) i)

  pub classify-AtFrom :
      (i : ℕ) (ts : List Token)
      → All (AtFrom input_test i ts) (classify offset l r name_off receiver i ts).0
        × All (AtFrom output_test i ts) (classify offset l r name_off receiver i ts).1
  unfolding classify
  classify-AtFrom i [] = (tt, tt)
  classify-AtFrom i (t ∷ ts) =
      let rest = classify offset l r name_off receiver (suc i) ts in
      let (ins, outs) = classify-AtFrom (suc i) ts in
      let ins' = All-map rest.0 (AtFrom-later input_test i t ts) ins in
      let outs' = All-map rest.1 (AtFrom-later output_test i t ts) outs in
      elim (Bool-cases (counts t)) [
        | inr miss ↦ rw miss (ins', outs')
        | inl hit ↦ elim (Bool-cases (is_input l r (offset t))) [
          | inl inside ↦
              rw (hit, inside)
                ((AtFrom-here input_test i t ts (rw (hit, inside) refl), ins'), outs')
          | inr outside ↦ elim (Bool-cases (is_output name_off receiver (offset t) i)) [
            | inl out ↦
                rw (hit, outside, out)
                  (ins', (AtFrom-here output_test i t ts (rw (hit, outside, out) refl), outs'))
            | inr other ↦ rw (hit, outside, other) (ins', outs')
          ]
        ]
      ]

-- The integer is in the list.
unfoldable pub listed : ℤ → List ℤ → Bool
unfolding eq_ℤ
listed k [] = false
listed k (j ∷ xs) = eq_ℤ j k || listed k xs

pub test_counts : (a b : Bool) → (a && b) ≡ true → a ≡ true
test_counts true b h = refl
test_counts false b h = h

pub test_rest : (a b : Bool) → (a && b) ≡ true → b ≡ true
test_rest true b h = h
test_rest false b h = cc

pub test_not : (a : Bool) → not a ≡ true → a ≡ false
test_not true h = sym h
test_not false h = refl

listed-cons : (k j : ℤ) (xs : List ℤ) → listed k xs ≡ true → listed k (j ∷ xs) ≡ true
unfolding listed
listed-cons k j xs h = ground arith

listed-head : (i k : ℕ) (xs : List ℤ) → k ≡ i → listed (pos k) (pos i ∷ xs) ≡ true
unfolding listed eq_ℤ
listed-head i k xs e = ground arith

module _ (offset : Token → ℤ) (l r name_off receiver : ℤ) where
  -- A token that passes a test is listed, whatever stands before it.
  pub classify-listed :
      (i n k : ℕ) (ts : List Token) (t : Token)
      → k ≡ i + n
      → get_elem? ts n ≡ some t
      → (input_test offset l r name_off receiver k t ≡ true
          → listed (pos k) (classify offset l r name_off receiver i ts).0 ≡ true)
        × (output_test offset l r name_off receiver k t ≡ true
            → listed (pos k) (classify offset l r name_off receiver i ts).1 ≡ true)
  unfolding classify
  classify-listed i n k [] t e h = absurd (cc)
  classify-listed i zero k (u ∷ us) t e h =
      let rest = classify offset l r name_off receiver (suc i) us in
      let same : u ≡ t = cc in
      let at_k : k ≡ i = omega arith in
      let inside = is_input l r (offset t) in
      let out = is_output name_off receiver (offset t) in
      rw same (
        λ test.
            let hit = test_counts (counts t) inside test in
            let yes_in = test_rest (counts t) inside test in
            rw (hit, yes_in) (listed-head i k rest.0 at_k),
        λ test.
            let hit = test_counts (counts t) (not inside && out k) test in
            let both = test_rest (counts t) (not inside && out k) test in
            let not_in = test_not inside (test_counts (not inside) (out k) both) in
            let is_out : out i ≡ true = ap out (sym at_k) ∙ test_rest (not inside) (out k) both in
            rw (hit, not_in, is_out) (listed-head i k rest.1 at_k),
      )
  classify-listed i (suc n) k (u ∷ us) t e h =
      let rest = classify offset l r name_off receiver (suc i) us in
      let (ins, outs) = classify-listed (suc i) n k us t (omega arith) h in
      elim (Bool-cases (counts u)) [
        | inr miss ↦ rw miss (ins, outs)
        | inl hit ↦ elim (Bool-cases (is_input l r (offset u))) [
          | inl inside ↦
              rw (hit, inside) ((λ test. listed-cons (pos k) (pos i) rest.0 (ins test)), outs)
          | inr outside ↦ elim (Bool-cases (is_output name_off receiver (offset u) i)) [
            | inl out ↦
                rw (hit, outside, out)
                  (ins, (λ test. listed-cons (pos k) (pos i) rest.1 (outs test)))
            | inr other ↦ rw (hit, outside, other) (ins, outs)
          ]
        ]
      ]
