-- ===== src/Cpp/Spec.antt =====
-- What CppSpec of lang/cpp/spec.go says of tokens, symbols and paths.
use abcoder.Base.{
  ℕ, Bool, true, false, not, ◌&&◌, ◌||◌, List, [], ◌∷◌, none, some, ◌==◌, if◌then◌else◌, length,
  take, drop, get_elem?,
}
use abcoder.Base.Int.{ℤ, pos, negsuc}
use abcoder.Base.Text.{Text, text_eq, codes}
use abcoder.Base.Slices.{index_byte}
use abcoder.Base.Search.{
  starts_with, ends_with, last_index_text, contains_text, trim_prefix, trim_space,
}
use abcoder.Base.Result.{Result, ok, panic}
use abcoder.Lsp.Symbol.{
  Token, DocumentSymbol, SymbolKind, sk_unknown, sk_namespace, sk_class, sk_method, sk_enum,
  sk_function, sk_variable, sk_constant, sk_enum_member, sk_struct, sk_type_parameter, has_text,
  first_index, or_minus_one,
}

-- One of the names.
abbrev pub one_of : Text → List Text → Bool
one_of s names = has_text names s

abbrev pub protected_symbol_kinds : List SymbolKind
protected_symbol_kinds =
    sk_function ∷ sk_method ∷ sk_variable ∷ sk_constant ∷ sk_class ∷ sk_struct ∷ []

-- The artifacts of the build, and all but sources and headers, are skipped.
unfoldable pub should_skip : Text → Bool
unfolding contains_text ends_with
should_skip path =
    if contains_text path (codes "/build64_release/")
    then true
    else not (
        ends_with (codes ".cpp") path && not (ends_with (codes "_test.cpp") path)
        || ends_with (codes ".h") path)

unfoldable pub is_doc_token : Token → Bool
is_doc_token tok = text_eq tok.token_type (codes "comment")

unfoldable pub declare_token_of_symbol : DocumentSymbol → ℤ
unfolding is_doc_token has_text first_index
declare_token_of_symbol sym = or_minus_one (
    first_index (λ t. not (is_doc_token t) && has_text t.modifiers (codes "declaration"))
      sym.tokens)

unfoldable pub is_entity_token : Token → Bool
unfolding has_text
is_entity_token tok =
    if has_text tok.modifiers (codes "declaration") || has_text tok.modifiers (codes "definition")
    then false
    else one_of tok.token_type
        (codes "class" ∷ codes "function" ∷ codes "method" ∷ codes "variable" ∷ [])

unfoldable pub is_std_token : Token → Bool
unfolding has_text
is_std_token tok = has_text tok.modifiers (codes "defaultLibrary")

-- A type of a token that is none of these panics.
unfoldable pub token_kind : Token → Result SymbolKind
unfolding has_text
token_kind tok =
    let typ = tok.token_type in
    if text_eq typ (codes "class")
    then ok sk_class
    else if text_eq typ (codes "enum")
    then ok sk_enum
    else if text_eq typ (codes "enumMember")
    then ok sk_enum_member
    else if one_of typ (codes "function" ∷ codes "macro" ∷ [])
    then ok sk_function
    else if text_eq typ (codes "parameter")
    then ok sk_variable
    else if text_eq typ (codes "typeParameter")
    then ok sk_type_parameter
    else if text_eq typ (codes "method")
    then ok sk_method
    else if text_eq typ (codes "namespace")
    then ok sk_namespace
    else if text_eq typ (codes "variable")
    then ok sk_variable
    else if one_of typ (
        codes "interface"
        ∷ codes "concept"
        ∷ codes "modifier"
        ∷ codes "type"
        ∷ codes "bracket"
        ∷ codes "comment"
        ∷ codes "label"
        ∷ codes "operator"
        ∷ codes "property"
        ∷ codes "unknown"
        ∷ [])
    then ok sk_unknown
    else panic

unfoldable pub is_main_function : DocumentSymbol → Bool
is_main_function sym = sym.kind == sk_function && text_eq sym.name (codes "main")

unfoldable pub is_entity_symbol : DocumentSymbol → Bool
is_entity_symbol sym =
    sym.kind == sk_function
    || (sym.kind == sk_method
        || (sym.kind == sk_variable
            || (sym.kind == sk_constant || (sym.kind == sk_class || sym.kind == sk_struct))))

-- Tokens[id] is there where the index is that of a declaring token.
abbrev pub modifiers_at : List Token → ℤ → List Text
modifiers_at tokens (pos i) = elim (get_elem? tokens i) [ some t ↦ t.modifiers | none ↦ [] ]
modifiers_at tokens (negsuc i) = []

unfoldable pub is_public_symbol : DocumentSymbol → Bool
unfolding declare_token_of_symbol has_text
is_public_symbol sym =
    has_text (modifiers_at sym.tokens (declare_token_of_symbol sym)) (codes "globalScope")

abbrev pub behind_last : Text → Text → Text
behind_last sep s = elim (last_index_text sep s) [
  | some i ↦ drop (length sep) (drop i s)
  | none ↦ s
]

abbrev pub before_byte : ℕ → Text → Text
before_byte b s = elim (index_byte b s) [ some i ↦ take i s | none ↦ s ]

-- The name without its namespaces, template arguments and leading keywords.
unfoldable pub cpp_short_type_name : Text → Text
unfolding trim_space last_index_text index_byte trim_prefix
cpp_short_type_name name =
    let plain = before_byte b'<' (behind_last (codes "::") (trim_space name)) in
    if text_eq (trim_space name) []
    then []
    else trim_space (trim_prefix (trim_prefix plain (codes "class ")) (codes "struct "))

-- The interface, the receiver and the function of an impl block; in C++ the receiver alone.
unfoldable pub impl_symbol : DocumentSymbol → ℤ × ℤ × ℤ
unfolding cpp_short_type_name has_text first_index
impl_symbol sym =
    let want = cpp_short_type_name sym.name in
    let found =
      first_index
        (λ t. text_eq t.text want && one_of t.token_type (codes "class" ∷ codes "struct" ∷ []))
        sym.tokens in
    if sym.kind == sk_class || sym.kind == sk_struct
    then (if text_eq want []
        then (negsuc 0, negsuc 0, negsuc 0)
        else (negsuc 0, or_minus_one found, negsuc 0))
    else (negsuc 0, negsuc 0, negsuc 0)

-- HasPrefix that respects the boundaries of paths.
unfoldable pub has_path_prefix : Text → Text → Bool
unfolding starts_with
has_path_prefix p root =
    if starts_with root p
    then (if length p == length root
        then true
        else elim (get_elem? p (length root)) [ some c ↦ c == b'/' | none ↦ false ])
    else false
