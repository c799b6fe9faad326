-- ===== src/Uniast/Extra.antt =====
-- GetExtra and SetExtra of Type, Var, Function and Dependency, and the JSON form of TypeKind, in
-- lang/uniast/ast.go.
use abcoder.Base.{◌≡◌, [], ◌∷◌, Option, none, some, arith, if◌then◌else◌, ◌==◌}
use abcoder.Base.Text.{Text, codes, text_eq}
use abcoder.Base.Result.{Result, ok, ◌>>=◌, bind_ok}
use abcoder.Base.GoMap.{made, get, put, get-put, get-made_nil}
use abcoder.Uniast.Model.{Value, ExtraInfo, TypeDecl, Var, Function, Dependency}

-- The four methods have the same body over the field Extra.
unfoldable pub read_extra : Option ExtraInfo → Text → Option Value
read_extra none key = none
read_extra (some e) key = get e.values key

unfoldable pub write_extra : Option ExtraInfo → Text → Value → Result ExtraInfo
write_extra none key v = do values ← put (made []) key v; ok (record { values = values })
write_extra (some e) key v = do values ← put e.values key v; ok (record { values = values })

unfoldable pub type_get_extra : TypeDecl → Text → Option Value
type_get_extra t = read_extra t.extra

unfoldable pub type_set_extra : TypeDecl → Text → Value → Result TypeDecl
type_set_extra t key v = do e ← write_extra t.extra key v; ok (record t { extra = some e })

unfoldable pub var_get_extra : Var → Text → Option Value
var_get_extra x = read_extra x.extra

unfoldable pub var_set_extra : Var → Text → Value → Result Var
var_set_extra x key v = do e ← write_extra x.extra key v; ok (record x { extra = some e })

unfoldable pub function_get_extra : Function → Text → Option Value
function_get_extra f = read_extra f.extra

unfoldable pub function_set_extra : Function → Text → Value → Result Function
function_set_extra f key v = do e ← write_extra f.extra key v; ok (record f { extra = some e })

unfoldable pub dependency_get_extra : Dependency → Text → Option Value
dependency_get_extra d = read_extra d.extra

unfoldable pub dependency_set_extra : Dependency → Text → Value → Result Dependency
dependency_set_extra d key v = do e ← write_extra d.extra key v; ok (record d { extra = some e })

read_extra-write_extra :
    (o : Option ExtraInfo) (key : Text) (v : Value) {e : ExtraInfo}
    → write_extra o key v ≡ ok e
    → (j : Text) → read_extra (some e) j ≡ (if text_eq key j then some v else read_extra o j)
unfolding write_extra read_extra
read_extra-write_extra none key v {e} h j =
    ground (arith, get-put (made []) key j v {m' = e.values}, get-made_nil {V = Value} j)
read_extra-write_extra (some e') key v {e} h j =
    ground (arith, get-put e'.values key j v {m' = e.values})

-- Where SetExtra does not panic, what it wrote on a function, a type, a variable or a dependency is
-- what GetExtra reads under the key; under every other key it reads what it read before.
pub get_extra-set_extra :
    (key j : Text) (v : Value) (f : Function) {f' : Function} (t : TypeDecl) {t' : TypeDecl}
    (x : Var) {x' : Var} (d : Dependency) {d' : Dependency}
    → function_set_extra f key v ≡ ok f'
    → type_set_extra t key v ≡ ok t'
    → var_set_extra x key v ≡ ok x'
    → dependency_set_extra d key v ≡ ok d'
    → (function_get_extra f' j ≡ (if text_eq key j then some v else function_get_extra f j))
      × (type_get_extra t' j ≡ (if text_eq key j then some v else type_get_extra t j))
      × (var_get_extra x' j ≡ (if text_eq key j then some v else var_get_extra x j))
      × (dependency_get_extra d' j ≡ (if text_eq key j then some v else dependency_get_extra d j))
unfolding function_set_extra function_get_extra type_set_extra type_get_extra var_set_extra
    var_get_extra dependency_set_extra dependency_get_extra
get_extra-set_extra key j v f {f'} t {t'} x {x'} d {d'} hf ht hx hd = (
  bind_ok (write_extra f.extra key v) _ hf
      λ e written out. ground (arith, read_extra-write_extra f.extra key v written j),
  bind_ok (write_extra t.extra key v) _ ht
      λ e written out. ground (arith, read_extra-write_extra t.extra key v written j),
  bind_ok (write_extra x.extra key v) _ hx
      λ e written out. ground (arith, read_extra-write_extra x.extra key v written j),
  bind_ok (write_extra d.extra key v) _ hd
      λ e written out. ground (arith, read_extra-write_extra d.extra key v written j),
)

abbrev pub kind_struct : Text
kind_struct = codes "struct"

abbrev pub kind_interface : Text
kind_interface = codes "interface"

abbrev pub kind_typedef : Text
kind_typedef = codes "typedef"

abbrev pub kind_enum : Text
kind_enum = codes "enum"

-- The bytes between a quote at the start and a quote at the end.
unfoldable pub up_to_quote : Text → Option Text
up_to_quote [] = none
up_to_quote (c ∷ []) = if c == b'"' then some [] else none
up_to_quote (c ∷ d ∷ s) = elim (up_to_quote (d ∷ s)) [ some t ↦ some (c ∷ t) | none ↦ none ]

unfoldable pub quoted : Text → Option Text
unfolding up_to_quote
quoted [] = none
quoted (c ∷ s) = if c == b'"' then up_to_quote s else none

-- TypeKind.UnmarshalJSON; the numbers are those of old data.
unfoldable pub unmarshal_type_kind : Text → Text
unfolding quoted
unmarshal_type_kind bytes = elim (quoted bytes) [
  | some s ↦ s
  | none ↦
      if text_eq bytes (codes "0")
      then kind_struct
      else if text_eq bytes (codes "1")
      then kind_interface
      else kind_typedef
]
