-- ===== src/Cpp/Parts.antt =====
-- Which tokens FunctionSymbol (lang/cpp/spec.go) takes for inputs and for outputs of a function.
use abcoder.Base.{
  ℕ, ◌≡◌, ◌≢◌, refl, Bool, true, false, not, ◌&&◌, List, some, arith, get_elem?, take, sym, ◌∙◌,
}
use abcoder.Base.Int.{ℤ, pos, ◌≤ℤ◌, eq_of_parts}
use abcoder.Base.Text.{All, All-map, codes, text_eq_iff}
use abcoder.Lsp.Position.{eq_ℤ}
use abcoder.Lsp.Symbol.{Token, DocumentSymbol, has_text}
use abcoder.Cpp.Spec.{is_entity_token}
use abcoder.Cpp.Function.{
  counts, is_input, is_output, classify, function_parts, start_off, param_open, find_matching_paren,
  find_receiver, receiver_short_name,
}
use abcoder.Cpp.Opening.{IsOpen, param_open-IsOpen}
use abcoder.Cpp.Params.{
  At, AtFrom-zero, input_test, output_test, classify-AtFrom, listed, classify-listed, test_counts,
  test_rest, test_not,
}

-- A token of an entity, and of no type parameter or namespace.
pub record Counts (t : Token) : Type 0 where
  pub of_entity : is_entity_token t ≡ true
  pub no_type_param : t.token_type ≢ codes "typeParameter"
  pub no_namespace : t.token_type ≢ codes "namespace"

-- Both parentheses are there, and the offset lies behind the first and not behind the second.
abbrev pub IsBetween : ℤ → ℤ → ℤ → Type 0
IsBetween l r o = (pos 0 ≤ℤ l) × (pos 0 ≤ℤ r) × (¬ (o ≤ℤ l)) × (o ≤ℤ r)

counts-Counts : (t : Token) → counts t ≡ true → Counts t
unfolding has_text
counts-Counts t h = record {
  of_entity = ground arith;
  no_type_param = λ e. ground (arith, text_eq_iff (codes "typeParameter") t.token_type);
  no_namespace = λ e. ground (arith, text_eq_iff (codes "namespace") t.token_type);
}

Counts-counts : (t : Token) → Counts t → counts t ≡ true
unfolding has_text
Counts-counts t c = ground (
  arith,
  c.of_entity,
  c.no_type_param,
  c.no_namespace,
  text_eq_iff (codes "typeParameter") t.token_type,
  text_eq_iff (codes "namespace") t.token_type,
)

is_input-IsBetween : (l r o : ℤ) → is_input l r o ≡ true → IsBetween l r o
is_input-IsBetween l r o h = ground arith

IsBetween-is_input : (l r o : ℤ) → IsBetween l r o → is_input l r o ≡ true
IsBetween-is_input l r o (h1, h2, h3, h4) = ground arith

is_output_sound :
    (m rcv o : ℤ) (i : ℕ) → is_output m rcv o i ≡ true → (pos 0 ≤ℤ o) × (¬ (m ≤ℤ o)) × (pos i ≢ rcv)
unfolding eq_ℤ
is_output_sound m rcv o i h = (ground arith, ground arith, λ e. ground arith)

is_output_complete :
    (m rcv o : ℤ) (i : ℕ) → pos 0 ≤ℤ o → ¬ (m ≤ℤ o) → pos i ≢ rcv → is_output m rcv o i ≡ true
unfolding eq_ℤ
is_output_complete m rcv o i h1 h2 h3 = ground (arith, eq_of_parts (pos i) rcv)

both_true : (a b : Bool) → a ≡ true → b ≡ true → (a && b) ≡ true
both_true a b p q = rw (p, q) refl

not-true : (a : Bool) → (a ≢ true) → not a ≡ true
not-true true h = absurd (h refl)
not-true false h = refl

true-ne-false : true ≢ false
true-ne-false e = cc

-- The token with this index has the property.
abbrev pub IsToken : (ℕ → Token → Type 0) → List Token → ℤ → Type 0
IsToken P ts k = (n : ℕ) × (k ≡ pos n) × (t : Token) × (get_elem? ts n ≡ some t) × P n t

At-IsToken :
    (p : ℕ → Token → Bool) (P : ℕ → Token → Type 0)
    → ((n : ℕ) (t : Token) → p n t ≡ true → P n t)
    → (ts : List Token) (k : ℤ) → At p ts k
    → IsToken P ts k
At-IsToken p P sound ts k (n, e, t, found, h) = (n, e, t, found, sound n t h)

module _ (offset : Token → ℤ) (l r name_off receiver : ℤ) where
  -- An entity's token in the parentheses.
  abbrev pub IsParam : ℕ → Token → Type 0
  IsParam n t = Counts t × IsBetween l r (offset t)

  -- An entity's token that is not in the parentheses, stands before the name, and is not the receiver.
  abbrev pub IsResult : ℕ → Token → Type 0
  IsResult n t =
      Counts t
      × (¬ IsBetween l r (offset t))
      × (pos 0 ≤ℤ offset t)
      × (¬ (name_off ≤ℤ offset t))
      × (pos n ≢ receiver)

  -- The lists hold the indices of these tokens, and of no others.
  pub record AreSorted (ts : List Token) (ins outs : List ℤ) : Type 0 where
    pub inputs : All (IsToken IsParam ts) ins
    pub outputs : All (IsToken IsResult ts) outs
    pub all_inputs :
        (n : ℕ) (t : Token) → get_elem? ts n ≡ some t → IsParam n t → listed (pos n) ins ≡ true
    pub all_outputs :
        (n : ℕ) (t : Token) → get_elem? ts n ≡ some t → IsResult n t → listed (pos n) outs ≡ true

  input_test-IsParam :
      (n : ℕ) (t : Token) → input_test offset l r name_off receiver n t ≡ true → IsParam n t
  input_test-IsParam n t h = (
    counts-Counts t (test_counts (counts t) (is_input l r (offset t)) h),
    is_input-IsBetween l r (offset t) (test_rest (counts t) (is_input l r (offset t)) h),
  )

  IsParam-input_test :
      (n : ℕ) (t : Token) → IsParam n t → input_test offset l r name_off receiver n t ≡ true
  IsParam-input_test n t (c, between) =
      both_true (counts t) (is_input l r (offset t)) (Counts-counts t c)
        (IsBetween-is_input l r (offset t) between)

  output_test-IsResult :
      (n : ℕ) (t : Token) → output_test offset l r name_off receiver n t ≡ true → IsResult n t
  output_test-IsResult n t h =
      let inside = is_input l r (offset t) in
      let out = is_output name_off receiver (offset t) n in
      let both = test_rest (counts t) (not inside && out) h in
      let (off_there, before_name, other) =
        is_output_sound name_off receiver (offset t) n (test_rest (not inside) out both) in
      (
        counts-Counts t (test_counts (counts t) (not inside && out) h),
        λ between. true-ne-false (
            sym (IsBetween-is_input l r (offset t) between)
            ∙ test_not inside (test_counts (not inside) out both)),
        off_there,
        before_name,
        other,
      )

  IsResult-output_test :
      (n : ℕ) (t : Token) → IsResult n t → output_test offset l r name_off receiver n t ≡ true
  IsResult-output_test n t (c, outside, off_there, before_name, other) =
      let inside = is_input l r (offset t) in
      let out = is_output name_off receiver (offset t) n in
      both_true (counts t) (not inside && out) (Counts-counts t c) (
        both_true (not inside) out
          (not-true inside λ h. outside (is_input-IsBetween l r (offset t) h))
          (is_output_complete name_off receiver (offset t) n off_there before_name other))

  classify-AreSorted :
      (ts : List Token)
      → AreSorted ts
          (classify offset l r name_off receiver 0 ts).0
          (classify offset l r name_off receiver 0 ts).1
  classify-AreSorted ts =
      let lists = classify offset l r name_off receiver 0 ts in
      let (ins, outs) = classify-AtFrom offset l r name_off receiver 0 ts in
      let as_input = input_test offset l r name_off receiver in
      let as_output = output_test offset l r name_off receiver in
      record {
        inputs =
            All-map lists.0
              (λ k h.
                At-IsToken as_input IsParam input_test-IsParam ts k (AtFrom-zero as_input ts k h))
              ins;
        outputs =
            All-map lists.1
              (λ k h.
                At-IsToken as_output IsResult output_test-IsResult ts k
                  (AtFrom-zero as_output ts k h))
              outs;
        all_inputs = λ n t found h.
            (classify-listed offset l r name_off receiver 0 n n ts t (omega arith) found).0
              (IsParam-input_test n t h);
        all_outputs = λ n t found h.
            (classify-listed offset l r name_off receiver 0 n n ts t (omega arith) found).1
              (IsResult-output_test n t h);
      }

-- The parentheses of the parameters, behind the name.
abbrev pub open_of : DocumentSymbol → Token → ℤ
open_of s name_tok = param_open s.text (start_off s name_tok)

abbrev pub close_of : DocumentSymbol → Token → ℤ
close_of s name_tok = find_matching_paren s.text (open_of s name_tok)

-- The first parenthesis, if there is one, is the first that opens at the function's name or behind
-- it, and the second is what findMatchingParen finds for it. The inputs are exactly the indices of
-- the entities' tokens, type parameters and namespaces aside, that start behind the first and not
-- behind the second. The outputs are exactly the indices of the other such tokens that start before
-- the name and are not the receiver.
pub function_parts-AreSorted :
    (s : DocumentSymbol) (name_idx : ℕ) (name_tok : Token)
    → ((k : ℕ) → open_of s name_tok ≡ pos k → IsOpen s.text (start_off s name_tok) k)
      × AreSorted
          (start_off s)
          (open_of s name_tok)
          (close_of s name_tok)
          (start_off s name_tok)
          (function_parts s name_idx name_tok).0
          s.tokens
          (function_parts s name_idx name_tok).1.0
          (function_parts s name_idx name_tok).1.1
unfolding function_parts
function_parts-AreSorted s name_idx name_tok = (
  λ k h. param_open-IsOpen s.text (start_off s name_tok) k h,
  classify-AreSorted (start_off s) (open_of s name_tok) (close_of s name_tok) (start_off s name_tok)
      (find_receiver (take name_idx s.tokens) (receiver_short_name s.name)) s.tokens,
)
