-- ===== src/Rust/Function.antt =====
-- FunctionSymbol of lang/rust/spec.go: the tokens of a function's parameters and results.
use abcoder.Base.{
  ℕ, zero, suc, ◌<◌, ◌⊎◌, ◌≡◌, ap, sym, ◌∙◌, Bool, true, false, not, ◌&&◌, ◌||◌, List, [], ◌∷◌,
  none, some, arith, ◌==◌, if◌then◌else◌, length, drop, Bool-cases, inl, inr,
}
use abcoder.Base.Int.{ℤ, pos, negsuc, ◌+ℤ◌, ◌-ℤ◌, ltb_ℤ, leb_ℤ, int_laws, eq_of_parts}
use abcoder.Base.Text.{codes, All}
use abcoder.Base.Result.{Result, ok, ◌>>=◌, bind_ok}
use abcoder.Lsp.Position.{count_lines, eq_ℤ}
use abcoder.Lsp.Symbol.{Token, DocumentSymbol, sk_method, sk_function, first_index}
use abcoder.Lsp.Tokens.{find_single}
use abcoder.Lsp.Pair.{find_pair, find_pair-end}
use abcoder.Rust.Spec.{is_entity_token, find_keyword, first_not_doc_token, is_doc_token}

-- The loops `for ; s >= 0 && s <= e; s++` that collect the entity tokens; the indices from `i` on.
-- The end is always the index of a token, or -1.
unfoldable pub entities_between : ℤ → ℤ → ℤ → List Token → List ℤ
unfolding is_entity_token
entities_between s e i [] = []
entities_between s e i (t ∷ ts) =
    let rest = entities_between s e (i +ℤ pos 1) ts in
    if leb_ℤ (pos 0) s && (leb_ℤ s i && (leb_ℤ i e && is_entity_token t)) then i ∷ rest else rest

-- `where := start + findSpecificToken(...)`, and the last token for -1.
unfoldable pub where_end : List Token → ℕ → ℤ
unfolding find_keyword eq_ℤ
where_end tokens start =
    let w = pos start +ℤ find_keyword (codes "where") (drop start tokens) in
    if eq_ℤ w (negsuc 0) then pos (length tokens) -ℤ pos 1 else w

abbrev no_parts : Result (List ℤ × List ℤ × List ℤ)
no_parts = ok ([], [], [])

-- The end of the results: the open brace, or the where clause.
unfoldable pub output_end : DocumentSymbol → ℤ → ℤ → Result ℤ
unfolding find_single eq_ℤ
output_end sym rc w =
    if eq_ℤ w (pos (length sym.tokens) -ℤ pos 1)
    then find_single sym.text (count_lines sym.text) sym.location.range.start sym.tokens (codes "{")
        rc w
    else ok w

-- From the token `fn` and the end of the signature.
unfoldable pub signature_parts : DocumentSymbol → ℤ → ℤ → Result (List ℤ × List ℤ × List ℤ)
unfolding entities_between output_end
signature_parts sym fn w = do
  let pair = find_pair sym.text (count_lines sym.text) sym.location.range.start sym.tokens
  generic ← pair b'<' b'>' (fn +ℤ pos 1) w b'('
  params ← pair b'(' b')' generic.1 w b'<'
  e ← output_end sym params.1 w
  ok (
    entities_between generic.0 generic.1 (pos 0) sym.tokens,
    entities_between params.0 params.1 (pos 0) sym.tokens,
    entities_between (params.1 +ℤ pos 1) e (pos 0) sym.tokens,
  )

-- From the first token that is no document; the test on `fn` holds for -1 alone.
unfoldable pub from_start : DocumentSymbol → ℕ → Result (List ℤ × List ℤ × List ℤ)
unfolding signature_parts where_end find_keyword
from_start sym start =
    let fn = pos start +ℤ find_keyword (codes "fn") (drop start sym.tokens) in
    if ltb_ℤ fn (pos 0) then no_parts else signature_parts sym fn (where_end sym.tokens start)

-- The type parameters, the inputs and the outputs; the receiver is always -1.
unfoldable pub function_symbol : DocumentSymbol → Result (List ℤ × List ℤ × List ℤ)
unfolding from_start first_not_doc_token
function_symbol sym =
    if sym.kind == sk_method || sym.kind == sk_function
    then elim (first_not_doc_token sym.tokens) [
      | some start ↦ from_start sym start
      | none ↦ no_parts
    ]
    else no_parts

-- no index is behind the end
abbrev pub UpTo : ℤ → List ℤ → Type 0
UpTo e = All (λ i. leb_ℤ i e ≡ true)

entities_between-UpTo :
    (s e : ℤ) (i : ℤ) (ts : List Token) (w : ℤ)
    → leb_ℤ e w ≡ true
    → UpTo w (entities_between s e i ts)
unfolding entities_between
entities_between-UpTo s e i [] w h = tt
entities_between-UpTo s e i (t ∷ ts) w h =
    let rest = entities_between-UpTo s e (i +ℤ pos 1) ts w h in
    elim (Bool-cases (leb_ℤ (pos 0) s && (leb_ℤ s i && (leb_ℤ i e && is_entity_token t)))) [
      | inl hit ↦ rw hit (ground arith, rest)
      | inr miss ↦ rw miss rest
    ]

output_end_lem :
    (sym : DocumentSymbol) (rc w e : ℤ)
    → eq_ℤ w (pos (length sym.tokens) -ℤ pos 1) ≡ false
    → output_end sym rc w ≡ ok e
    → w ≡ e
unfolding output_end
output_end_lem sym rc w e other h = ground arith

signature_parts-UpTo :
    (sym : DocumentSymbol) (fn w : ℤ) (types inputs outputs : List ℤ)
    → leb_ℤ (negsuc 0) w ≡ true
    → eq_ℤ w (pos (length sym.tokens) -ℤ pos 1) ≡ false
    → signature_parts sym fn w ≡ ok (types, inputs, outputs)
    → UpTo w types × UpTo w inputs × UpTo w outputs
unfolding signature_parts output_end
signature_parts-UpTo sym fn w types inputs outputs low other h =
    let lines = count_lines sym.text in
    let start = sym.location.range.start in
    bind_ok (find_pair sym.text lines start sym.tokens b'<' b'>' (fn +ℤ pos 1) w b'(') _ h
      λ (gs, ge) e₁ h₁.
        bind_ok (find_pair sym.text lines start sym.tokens b'(' b')' ge w b'<') _ h₁
          λ (ps, pe) e₂ h₂. bind_ok (output_end sym pe w) _ h₂ λ oe e₃ h₃.
            let types_are : entities_between gs ge (pos 0) sym.tokens ≡ types = ground arith in
            let inputs_are : entities_between ps pe (pos 0) sym.tokens ≡ inputs = ground arith in
            let outputs_are : entities_between (pe +ℤ pos 1) oe (pos 0) sym.tokens ≡ outputs =
              ground arith in
            let ends : w ≡ oe = output_end_lem sym pe w oe other e₃ in
            (
              rw (← types_are) (
                  entities_between-UpTo gs ge (pos 0) sym.tokens w (
                    find_pair-end sym.text lines start sym.tokens b'<' b'>' (fn +ℤ pos 1) w b'(' gs
                      ge low e₁)),
              rw (← inputs_are) (
                  entities_between-UpTo ps pe (pos 0) sym.tokens w (
                    find_pair-end sym.text lines start sym.tokens b'(' b')' ge w b'<' ps pe low
                      e₂)),
              rw (← outputs_are) (
                  entities_between-UpTo (pe +ℤ pos 1) oe (pos 0) sym.tokens w
                    (rw (← ends) (ground arith))),
            )

first_index-bound {ℓ} :
    {A : Type ℓ} (p : A → Bool) (xs : List A) (i : ℕ) → first_index p xs ≡ some i → i < length xs
unfolding first_index
first_index-bound p [] i h = cc
first_index-bound p (x ∷ xs) zero h = omega arith
first_index-bound p (x ∷ xs) (suc i) h = ground (arith, first_index-bound p xs i)

-- A where clause that is missing behind the index k + 1 gives k, not the last token.
where_end_missing :
    (ts : List Token) (k : ℕ)
    → find_keyword (codes "where") (drop (suc k) ts) ≡ negsuc 0
    → where_end ts (suc k) ≡ pos k
unfolding where_end
where_end_missing ts k h =
    let is_k : pos (suc k) +ℤ negsuc 0 ≡ pos k = eq_of_parts _ _ (omega int_laws) in
    rw (h, is_k) (unfold eq_ℤ in ground arith)

last_index_ne : (k n : ℕ) → suc k < n → eq_ℤ (pos k) (pos n -ℤ pos 1) ≡ false
unfolding eq_ℤ ◌-ℤ◌
last_index_ne k n h = ground arith

UpTo-none :
    (w : ℤ) (types inputs outputs : List ℤ)
    → no_parts ≡ ok (types, inputs, outputs)
    → UpTo w types × UpTo w inputs × UpTo w outputs
UpTo-none w types inputs outputs h =
    let t : [] ≡ types = ground arith in
    let i : [] ≡ inputs = ground arith in
    let o : [] ≡ outputs = ground arith in (rw (← t) tt, rw (← i) tt, rw (← o) tt)

function_symbol_start :
    (sym : DocumentSymbol) (start : ℕ)
    → first_not_doc_token sym.tokens ≡ some start
    → (function_symbol sym ≡ no_parts) ⊎ (function_symbol sym ≡ from_start sym start)
unfolding function_symbol
function_symbol_start sym start first =
    elim (Bool-cases (sym.kind == sk_method || sym.kind == sk_function)) [
      | inl is ↦ inr (ground arith)
      | inr other ↦ inl (ground arith)
    ]

from_start_cases :
    (sym : DocumentSymbol) (start : ℕ)
    → (from_start sym start ≡ no_parts)
      ⊎ (from_start sym start
          ≡ signature_parts sym
              (pos start +ℤ find_keyword (codes "fn") (drop start sym.tokens))
              (where_end sym.tokens start))
unfolding from_start
from_start_cases sym start =
    elim (Bool-cases
      (ltb_ℤ (pos start +ℤ find_keyword (codes "fn") (drop start sym.tokens)) (pos 0))) [
        | inl missing ↦ inl (ground arith)
        | inr there ↦ inr (ground arith)
      ]

-- For a function that has tokens of documents first and no where clause, FunctionSymbol returns, if it
-- returns, only type parameters, inputs and outputs that stand among the documents' tokens.
pub function_symbol_documented :
    (symbol : DocumentSymbol) (k : ℕ) (types inputs outputs : List ℤ)
    → first_not_doc_token symbol.tokens ≡ some (suc k)
    → find_keyword (codes "where") (drop (suc k) symbol.tokens) ≡ negsuc 0
    → function_symbol symbol ≡ ok (types, inputs, outputs)
    → UpTo (pos k) types × UpTo (pos k) inputs × UpTo (pos k) outputs
unfolding first_not_doc_token
function_symbol_documented symbol k types inputs outputs first missing h =
    elim (function_symbol_start symbol (suc k) first) [
      | inl nothing ↦ UpTo-none (pos k) types inputs outputs (sym nothing ∙ h)
      | inr started ↦ elim (from_start_cases symbol (suc k)) [
        | inl nothing ↦ UpTo-none (pos k) types inputs outputs (sym (started ∙ nothing) ∙ h)
        | inr run ↦
            let fn = pos (suc k) +ℤ find_keyword (codes "fn") (drop (suc k) symbol.tokens) in
            let ends = where_end_missing symbol.tokens k missing in
            let parts : signature_parts symbol fn (pos k) ≡ ok (types, inputs, outputs) =
              ap (λ w. signature_parts symbol fn w) (sym ends) ∙ sym (started ∙ run) ∙ h in
            signature_parts-UpTo symbol fn (pos k) types inputs outputs (ground arith)
              (last_index_ne k (length symbol.tokens)
                (first_index-bound (λ t. not (is_doc_token t)) symbol.tokens (suc k) first))
              parts
      ]
    ]
