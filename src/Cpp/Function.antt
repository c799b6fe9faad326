-- ===== src/Cpp/Function.antt =====
-- FunctionSymbol of lang/cpp/spec.go: the tokens of a function's receiver, parameters and results.
use abcoder.Base.{
  ℕ, suc, ◌+◌, Bool, false, not, ◌&&◌, ◌||◌, List, [], ◌∷◌, Option, none, some, ◌==◌, if◌then◌else◌,
  length, take, drop, get_elem?, leb,
}
use abcoder.Base.Int.{ℤ, pos, negsuc, ◌+ℤ◌, ltb_ℤ, leb_ℤ}
use abcoder.Base.Text.{Text, text_eq, codes}
use abcoder.Base.Slices.{index_byte}
use abcoder.Base.Search.{contains_text, split_double, trim_space, index_text}
use abcoder.Lsp.Position.{count_lines, relative_position_with_lines, eq_ℤ}
use abcoder.Lsp.Symbol.{
  Token, DocumentSymbol, sk_function, sk_method, has_text, first_index, or_minus_one,
}
use abcoder.Cpp.Spec.{one_of, is_entity_token, before_byte}

-- parts[len(parts)-2], where there are two parts at least.
abbrev pub last_but_one : List Text → Text
last_but_one [] = []
last_but_one (p ∷ []) = []
last_but_one (p ∷ q ∷ []) = p
last_but_one (p ∷ q ∷ r ∷ ps) = last_but_one (q ∷ r ∷ ps)

unfoldable pub receiver_short_name : Text → Text
unfolding split_double trim_space index_byte
receiver_short_name qualified =
    trim_space (before_byte b'<' (last_but_one (split_double b':' false qualified)))

-- The loop of findMatchingParen from the byte `i` on.
unfoldable pub match_paren : Text → ℕ → ℤ → ℤ
match_paren [] i depth = negsuc 0
match_paren (c ∷ s) i depth =
    let deeper = match_paren s (suc i) (depth +ℤ pos 1) in
    let shallower = match_paren s (suc i) (depth +ℤ negsuc 0) in
    let same = match_paren s (suc i) depth in
    if c == b'('
    then deeper
    else if c == b')'
    then (if leb_ℤ (depth +ℤ negsuc 0) (pos 0) && leb_ℤ (pos 0) (depth +ℤ negsuc 0)
        then pos i
        else shallower)
    else same

abbrev pub opens : Option ℕ → Bool
opens none = false
opens (some c) = c == b'('

unfoldable pub find_matching_paren : Text → ℤ → ℤ
unfolding match_paren
find_matching_paren s (pos i) =
    if opens (get_elem? s i) then match_paren (drop i s) i (pos 0) else negsuc 0
find_matching_paren s (negsuc i) = negsuc 0

-- The receiver is a token before the name that has the receiver's text.
unfoldable pub find_receiver : List Token → Text → ℤ
unfolding has_text is_entity_token first_index
find_receiver before short =
    let typed =
      first_index
        (λ t.
          text_eq t.text short
          && one_of t.token_type (codes "class" ∷ codes "struct" ∷ codes "type" ∷ []))
        before in
    let entity = first_index (λ t. text_eq t.text short && is_entity_token t) before in
    if text_eq short []
    then negsuc 0
    else elim typed [ some i ↦ pos i | none ↦ or_minus_one entity ]

unfoldable pub type_params_from : ℕ → List Token → List ℤ
type_params_from i [] = []
type_params_from i (t ∷ ts) =
    let rest = type_params_from (suc i) ts in
    if text_eq t.token_type (codes "typeParameter") then pos i ∷ rest else rest

-- The open parenthesis behind the name.
unfoldable pub param_open : Text → ℤ → ℤ
unfolding index_text
param_open text (pos o) =
    if leb (length text) o
    then negsuc 0
    else elim (index_text (codes "(") (drop o text)) [ some k ↦ pos (o + k) | none ↦ negsuc 0 ]
param_open text (negsuc o) = negsuc 0

-- Whether a token counts, and the tests that send it to the inputs or to the outputs.
abbrev pub counts : Token → Bool
counts t =
    is_entity_token t && not (one_of t.token_type (codes "typeParameter" ∷ codes "namespace" ∷ []))

abbrev pub is_input : ℤ → ℤ → ℤ → Bool
is_input l r off = leb_ℤ (pos 0) l && (leb_ℤ (pos 0) r && (ltb_ℤ l off && leb_ℤ off r))

abbrev pub is_output : ℤ → ℤ → ℤ → ℕ → Bool
is_output name_off receiver off i =
    leb_ℤ (pos 0) off && (ltb_ℤ off name_off && not (eq_ℤ (pos i) receiver))

module _ (offset : Token → ℤ) (l r name_off receiver : ℤ) where
  -- The loop that classifies the tokens from `i` on.
  unfoldable pub classify : ℕ → List Token → List ℤ × List ℤ
  unfolding is_entity_token has_text eq_ℤ
  classify i [] = ([], [])
  classify i (t ∷ ts) =
      let rest = classify (suc i) ts in
      if counts t
      then (if is_input l r (offset t)
          then (pos i ∷ rest.0, rest.1)
          else if is_output name_off receiver (offset t) i
          then (rest.0, pos i ∷ rest.1)
          else rest)
      else rest

abbrev pub start_off : DocumentSymbol → Token → ℤ
start_off sym t =
    relative_position_with_lines (count_lines sym.text) sym.location.range.start
      t.location.range.start

-- With the name's token, the receiver, the inputs and the outputs.
unfoldable pub function_parts : DocumentSymbol → ℕ → Token → ℤ × (List ℤ × List ℤ)
unfolding find_receiver receiver_short_name param_open find_matching_paren classify
    relative_position_with_lines count_lines
function_parts sym name_idx name_tok =
    let receiver = find_receiver (take name_idx sym.tokens) (receiver_short_name sym.name) in
    let name_off = start_off sym name_tok in
    let l = param_open sym.text name_off in
    (
      receiver,
      classify (start_off sym) l (find_matching_paren sym.text l) name_off receiver 0 sym.tokens,
    )

-- The receiver, the type parameters, the inputs and the outputs.
unfoldable pub function_symbol : DocumentSymbol → ℤ × List ℤ × List ℤ × List ℤ
unfolding function_parts type_params_from first_index contains_text has_text
function_symbol sym =
    let type_params = type_params_from 0 sym.tokens in
    if sym.kind == sk_function || (sym.kind == sk_method || contains_text sym.name (codes "::"))
    then elim (first_index (λ t. one_of t.token_type (codes "method" ∷ codes "function" ∷ []))
        sym.tokens) [
          | none ↦ (negsuc 0, type_params, [], [])
          | some i ↦ elim (get_elem? sym.tokens i) [
            | none ↦ (negsuc 0, type_params, [], [])
            | some t ↦
                let parts = function_parts sym i t in (parts.0, type_params, parts.1.0, parts.1.1)
          ]
        ]
    else (negsuc 0, [], [], [])
