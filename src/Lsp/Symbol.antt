-- ===== src/Lsp/Symbol.antt =====
-- Locations, tokens and symbols of lang/lsp/lsp.go. Of a symbol the fields are kept that the modelled
-- code reads.
use abcoder.Base.{Bool, true, false, ◌&&◌, List, [], ◌∷◌, Option, none, some, ℕ, if◌then◌else◌}
use abcoder.Base.Text.{Text, text_eq, codes}
use abcoder.Base.Search.{trim_prefix, later}
use abcoder.Base.Int.{ℤ, pos, negsuc}
use abcoder.Lsp.Position.{Position, Range, eq_ℤ, is_position_in_range}

pub record Location : Type 0 where
  pub uri : Text
  pub range : Range

pub record Token : Type 0 where
  pub location : Location
  pub token_type : Text
  pub modifiers : List Text
  pub text : Text

abbrev pub SymbolKind : Type 0
SymbolKind = ℕ

pub record DocumentSymbol : Type 0 where
  pub name : Text
  pub detail : Text
  pub kind : SymbolKind
  pub text : Text
  pub tokens : List Token
  pub location : Location

-- The kinds that the language specifications use.
abbrev pub sk_unknown : SymbolKind
sk_unknown = 1

abbrev pub sk_namespace : SymbolKind
sk_namespace = 3

abbrev pub sk_class : SymbolKind
sk_class = 5

abbrev pub sk_method : SymbolKind
sk_method = 6

abbrev pub sk_enum : SymbolKind
sk_enum = 10

abbrev pub sk_interface : SymbolKind
sk_interface = 11

abbrev pub sk_function : SymbolKind
sk_function = 12

abbrev pub sk_variable : SymbolKind
sk_variable = 13

abbrev pub sk_constant : SymbolKind
sk_constant = 14

abbrev pub sk_object : SymbolKind
sk_object = 19

abbrev pub sk_enum_member : SymbolKind
sk_enum_member = 22

abbrev pub sk_struct : SymbolKind
sk_struct = 23

abbrev pub sk_type_parameter : SymbolKind
sk_type_parameter = 26

-- DocumentURI.File.
unfoldable pub uri_file : Text → Text
uri_file uri = trim_prefix uri (codes "file://")

-- The operator == on positions, ranges and locations.
unfoldable pub position_eq : Position → Position → Bool
unfolding eq_ℤ
position_eq p q = eq_ℤ p.line q.line && eq_ℤ p.character q.character

unfoldable pub location_eq : Location → Location → Bool
unfolding position_eq
location_eq a b =
    text_eq a.uri b.uri
    && (position_eq a.range.start b.range.start && position_eq a.range.end b.range.end)

-- Location.Include.
unfoldable pub location_include : Location → Location → Bool
unfolding is_position_in_range location_eq
location_include a b =
    if location_eq a b
    then true
    else if text_eq a.uri b.uri
    then is_position_in_range b.range.start a.range false
      && is_position_in_range b.range.end a.range true
    else false

-- The loops `for _, m := range mods` that look for a name.
unfoldable pub has_text : List Text → Text → Bool
has_text [] name = false
has_text (m ∷ mods) name = if text_eq m name then true else has_text mods name

-- The index of the first token with a property, or -1.
unfoldable pub first_index {ℓ} : {A : Type ℓ} → (A → Bool) → List A → Option ℕ
first_index p [] = none
first_index p (x ∷ xs) = let rest = first_index p xs in if p x then some 0 else later rest

abbrev pub or_minus_one : Option ℕ → ℤ
or_minus_one none = negsuc 0
or_minus_one (some i) = pos i
