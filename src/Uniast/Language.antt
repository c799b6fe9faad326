-- ===== src/Uniast/Language.antt =====
-- Language and NodeType: their constants, their names, and the readers of names, in
-- lang/uniast/ast.go and lang/uniast/node.go.
use abcoder.Base.{ℕ, ◌≡◌, refl, Bool, true, false, ◌||◌, List, [], ◌∷◌, arith, if◌then◌else◌}
use abcoder.Base.Text.{Text, codes, text_eq, to_lower, lower_byte, All}

abbrev pub Language : Type 0
Language = Text

abbrev pub golang : Language
golang = codes "go"

abbrev pub rust : Language
rust = codes "rust"

abbrev pub cxx : Language
cxx = codes "cxx"

abbrev pub python : Language
python = codes "python"

abbrev pub type_script : Language
type_script = codes "typescript"

abbrev pub java : Language
java = codes "java"

abbrev pub unknown_language : Language
unknown_language = []

abbrev pub kotlin : Language
kotlin = codes "kotlin"

abbrev pub cpp : Language
cpp = codes "cpp"

unfoldable pub language_string : Language → Text
language_string l =
    if text_eq l rust
    then codes "rust"
    else if text_eq l golang
    then codes "go"
    else if text_eq l cxx
    then codes "cxx"
    else if text_eq l python
    then codes "python"
    else if text_eq l java
    then codes "java"
    else l

-- A Go switch over strings: the cases in order, with the value that each returns.
abbrev pub one_of : Text → List Text → Bool
one_of s [] = false
one_of s (t ∷ ts) = text_eq s t || one_of s ts

module _ {A : Type 0} where
  abbrev pub switch : List (List Text × A) → A → Text → A
  switch [] default s = default
  switch ((names, a) ∷ cases) default s = if one_of s names then a else switch cases default s

  -- What every case and the default satisfy, the result satisfies.
  pub switch-All :
      (P : A → Type 0) (cases : List (List Text × A)) (default : A) (s : Text)
      → All (λ c. P c.1) cases
      → P default
      → P (switch cases default s)
  switch-All P [] default s h d = d
  switch-All P ((names, a) ∷ cases) default s (pa, h) d =
      branch (one_of s names) (switch-All P cases default s h d)
    where
      branch : (b : Bool) → P (switch cases default s) → P (if b then a else switch cases default s)
      branch true rest = pa
      branch false rest = rest

abbrev language_cases : List (List Text × Language)
language_cases =
    (codes "go" ∷ codes "golang" ∷ [], golang)
    ∷ (codes "rust" ∷ [], rust)
    ∷ (codes "cxx" ∷ [], cxx)
    ∷ (codes "cpp" ∷ [], cpp)
    ∷ (codes "python" ∷ [], python)
    ∷ (codes "ts" ∷ codes "typescript" ∷ codes "javascript" ∷ codes "js" ∷ [], type_script)
    ∷ (codes "java" ∷ [], java)
    ∷ (codes "kotlin" ∷ [], kotlin)
    ∷ []

unfoldable pub new_language : Text → Language
new_language lang = switch language_cases unknown_language (to_lower lang)

pub data NodeType : Type 0 where
  unknown func type var : NodeType

unfoldable pub node_type_string : NodeType → Text
node_type_string func = codes "FUNC"
node_type_string type = codes "TYPE"
node_type_string var = codes "VAR"
node_type_string unknown = codes "UNKNOWN"

abbrev node_type_cases : List (List Text × NodeType)
node_type_cases =
    (codes "func" ∷ codes "function" ∷ [], func)
    ∷ (codes "type" ∷ codes "struct" ∷ [], type)
    ∷ (codes "var" ∷ codes "variable" ∷ codes "variant" ∷ codes "const" ∷ [], var)
    ∷ []

unfoldable pub new_node_type : Text → NodeType
new_node_type typ = switch node_type_cases unknown (to_lower typ)

lower_byte_idem : (c : ℕ) → lower_byte (lower_byte c) ≡ lower_byte c
unfolding lower_byte
lower_byte_idem c = ground arith

to_lower_idem : (s : Text) → to_lower (to_lower s) ≡ to_lower s
unfolding to_lower
to_lower_idem [] = refl
to_lower_idem (c ∷ s) = ground (arith, lower_byte_idem c, to_lower_idem s)

abbrev IsReadBack : Language → Type 0
IsReadBack l = new_language (language_string l) ≡ l

switch-IsReadBack : (s : Text) → IsReadBack (switch language_cases unknown_language s)
unfolding new_language language_string to_lower text_eq
switch-IsReadBack s =
    switch-All IsReadBack language_cases unknown_language s
      (refl, (refl, (refl, (refl, (refl, (refl, (refl, (refl, tt)))))))) refl

-- The reader of names does not see the case of letters, and reads back what String prints of a
-- language that it has read.
pub new_language_normal :
    (s : Text)
    → (new_language (to_lower s) ≡ new_language s)
      × (new_language (language_string (new_language s)) ≡ new_language s)
unfolding new_language
new_language_normal s =
    (unfold new_language in rw (to_lower_idem s), switch-IsReadBack (to_lower s))

-- The reader of node types does not see the case of letters, and reads back what String prints.
pub new_node_type_normal :
    (s : Text) (t : NodeType)
    → (new_node_type (to_lower s) ≡ new_node_type s) × (new_node_type (node_type_string t) ≡ t)
unfolding new_node_type node_type_string
new_node_type_normal s func = (rw (to_lower_idem s), unfold to_lower text_eq in refl)
new_node_type_normal s type = (rw (to_lower_idem s), unfold to_lower text_eq in refl)
new_node_type_normal s var = (rw (to_lower_idem s), unfold to_lower text_eq in refl)
new_node_type_normal s unknown = (rw (to_lower_idem s), unfold to_lower text_eq in refl)
