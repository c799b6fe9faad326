-- ===== src/Rust/Spec.antt =====
-- What RustSpec of lang/rust/spec.go says of tokens and symbols.
use abcoder.Base.{
  ℕ, Bool, false, not, ◌&&◌, ◌||◌, List, [], ◌∷◌, Option, none, some, ◌==◌, if◌then◌else◌, length,
  drop, get_elem?,
}
use abcoder.Base.Int.{ℤ, pos, negsuc, ◌+ℤ◌, ◌-ℤ◌, ltb_ℤ, leb_ℤ}
use abcoder.Base.Text.{Text, text_eq, codes}
use abcoder.Base.Search.{contains_text, ends_with}
use abcoder.Lsp.Symbol.{
  Token, DocumentSymbol, SymbolKind, sk_unknown, sk_method, sk_enum, sk_interface, sk_function,
  sk_variable, sk_constant, sk_object, sk_enum_member, sk_struct, sk_type_parameter, has_text,
  first_index, or_minus_one,
}

abbrev pub entity_types : List Text
entity_types =
    codes "macro"
    ∷ codes "method"
    ∷ codes "function"
    ∷ codes "static"
    ∷ codes "const"
    ∷ codes "struct"
    ∷ codes "enum"
    ∷ codes "enumMember"
    ∷ codes "typeAlias"
    ∷ codes "interface"
    ∷ codes "variable"
    ∷ []

unfoldable pub is_entity_token : Token → Bool
unfolding has_text
is_entity_token tok = has_text entity_types tok.token_type

-- The first modifier that is the library's, or a macro's on a static, decides.
unfoldable pub is_external_entity_token : Token → Bool
unfolding is_entity_token
is_external_entity_token tok =
    if is_entity_token tok
    then has_text tok.modifiers (codes "library")
      || (text_eq tok.token_type (codes "static") && has_text tok.modifiers (codes "macro"))
    else false

unfoldable pub token_kind : Token → SymbolKind
token_kind tok =
    let typ = tok.token_type in
    if text_eq typ (codes "macro")
    then sk_function
    else if text_eq typ (codes "method")
    then sk_method
    else if text_eq typ (codes "function")
    then sk_function
    else if text_eq typ (codes "static")
    then sk_variable
    else if text_eq typ (codes "const")
    then sk_constant
    else if text_eq typ (codes "struct")
    then sk_struct
    else if text_eq typ (codes "enum")
    then sk_enum
    else if text_eq typ (codes "enumMember")
    then sk_enum_member
    else if text_eq typ (codes "typeAlias")
    then sk_type_parameter
    else if text_eq typ (codes "interface")
    then sk_interface
    else if text_eq typ (codes "variable")
    then sk_variable
    else sk_unknown

unfoldable pub is_std_token : Token → Bool
is_std_token tok = has_text tok.modifiers (codes "defaultLibrary")

unfoldable pub is_doc_token : Token → Bool
unfolding has_text
is_doc_token tok =
    has_text tok.modifiers (codes "documentation") || has_text tok.modifiers (codes "injected")

unfoldable pub declare_token_of_symbol : DocumentSymbol → ℤ
unfolding is_doc_token has_text first_index
declare_token_of_symbol sym = or_minus_one (
    first_index (λ t. not (is_doc_token t) && has_text t.modifiers (codes "declaration"))
      sym.tokens)

abbrev modifiers_at : List Token → ℤ → List Text
modifiers_at tokens (pos i) = elim (get_elem? tokens i) [ some t ↦ t.modifiers | none ↦ [] ]
modifiers_at tokens (negsuc i) = []

unfoldable pub is_public_symbol : DocumentSymbol → Bool
unfolding declare_token_of_symbol has_text
is_public_symbol sym =
    has_text (modifiers_at sym.tokens (declare_token_of_symbol sym)) (codes "public")

unfoldable pub is_main_function : DocumentSymbol → Bool
is_main_function sym = sym.kind == sk_function && text_eq sym.name (codes "main")

abbrev pub one_kind : SymbolKind → List SymbolKind → Bool
one_kind k [] = false
one_kind k (j ∷ ks) = k == j || one_kind k ks

unfoldable pub is_entity_symbol : DocumentSymbol → Bool
is_entity_symbol sym = one_kind sym.kind (
    sk_method ∷ sk_function ∷ sk_variable ∷ sk_struct ∷ sk_enum ∷ sk_type_parameter ∷ sk_interface
    ∷ sk_constant ∷ [])

abbrev pub is_keyword : Text → Token → Bool
is_keyword word t = text_eq t.token_type (codes "keyword") && text_eq t.text word

-- findSpecificToken and hasKeyword, for keywords.
unfoldable pub find_keyword : Text → List Token → ℤ
unfolding first_index
find_keyword word tokens = or_minus_one (first_index (is_keyword word) tokens)

-- findSpecificTokenUntil, for keywords; the indices from `i` on.
unfoldable pub find_keyword_until : Text → ℤ → ℤ → ℤ → List Token → ℤ
find_keyword_until word start end i [] = negsuc 0
find_keyword_until word start end i (t ∷ ts) =
    let rest = find_keyword_until word start end (i +ℤ pos 1) ts in
    if leb_ℤ start i && (ltb_ℤ i end && is_keyword word t) then i else rest

unfoldable pub first_not_doc_token : List Token → Option ℕ
unfolding first_index is_doc_token
first_not_doc_token tokens = first_index (λ t. not (is_doc_token t)) tokens

-- The first index in a range, from `low` up to but without `high`, of a token with the property.
unfoldable pub first_between : (Token → Bool) → ℤ → ℤ → ℤ → List Token → ℤ
first_between p low high i [] = negsuc 0
first_between p low high i (t ∷ ts) =
    let rest = first_between p low high (i +ℤ pos 1) ts in
    if leb_ℤ low i && (ltb_ℤ i high && p t) then i else rest

abbrev pub is_pub_at : List Token → ℤ → Bool
is_pub_at tokens (pos i) = elim (get_elem? tokens i) [
  | some t ↦ is_keyword (codes "pub") t
  | none ↦ false
]
is_pub_at tokens (negsuc i) = false

-- With the first token that is no document.
unfoldable pub impl_parts : List Token → ℕ → ℤ × ℤ × ℤ
unfolding find_keyword find_keyword_until first_between is_entity_token
impl_parts tokens start =
    let fn = pos start +ℤ find_keyword (codes "fn") (drop start tokens) in
    let for_token = find_keyword_until (codes "for") (pos start) fn (pos 0) tokens in
    let impl_type =
      first_between (λ t. text_eq t.token_type (codes "interface")) (pos start) for_token (pos 0)
        tokens in
    let receiver =
      first_between is_entity_token (for_token +ℤ pos 1) (pos (length tokens)) (pos 0) tokens in
    if ltb_ℤ (pos 0) fn && is_pub_at tokens (fn -ℤ pos 1)
    then (impl_type, receiver, fn -ℤ pos 1)
    else (impl_type, receiver, fn)

-- The trait, the receiver and the first function of an impl block.
unfoldable pub impl_symbol : DocumentSymbol → ℤ × ℤ × ℤ
unfolding impl_parts find_keyword first_not_doc_token
impl_symbol sym =
    if sym.kind == sk_object && leb_ℤ (pos 0) (find_keyword (codes "impl") sym.tokens)
    then elim (first_not_doc_token sym.tokens) [
      | some start ↦ impl_parts sym.tokens start
      | none ↦ (negsuc 0, negsuc 0, negsuc 0)
    ]
    else (negsuc 0, negsuc 0, negsuc 0)

unfoldable pub should_skip : Text → Bool
should_skip path = contains_text path (codes "/target/") || not (ends_with (codes ".rs") path)
