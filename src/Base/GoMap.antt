-- ===== src/Base/GoMap.antt =====
-- Go's map[string]V. A map may be nil: a read then finds nothing and a write panics. The list order
-- stands for the order in which a range loop meets the entries.
use abcoder.Base.{◌≡◌, refl, List, [], ◌∷◌, Option, none, some, arith, if◌then◌else◌}
use abcoder.Base.Text.{Text, text_eq, text_eq_iff}
use abcoder.Base.Result.{Result, ok, panic}

module _ {ℓ} {V : Type ℓ} where
  unfoldable pub find : Text → List (Text × V) → Option V
  find k [] = none
  find k ((j, v) ∷ m) = if text_eq j k then some v else find k m

  unfoldable pub assign : Text → V → List (Text × V) → List (Text × V)
  assign k v [] = (k, v) ∷ []
  assign k v ((j, w) ∷ m) = if text_eq j k then (k, v) ∷ m else (j, w) ∷ assign k v m

  pub find-assign :
      (k j : Text) (v : V) (m : List (Text × V))
      → find j (assign k v m) ≡ (if text_eq k j then some v else find j m)
  unfolding find assign
  find-assign k j v [] = refl
  find-assign k j v ((i, w) ∷ m) =
      ground (arith, text_eq_iff k j, text_eq_iff i k, text_eq_iff i j, find-assign k j v m)

pub data GoMap {ℓ} (V : Type ℓ) : Type ℓ where
  nil_map : GoMap V
  made : List (Text × V) → GoMap V

module _ {ℓ} {V : Type ℓ} where
  abbrev pub entries : GoMap V → List (Text × V)
  entries nil_map = []
  entries (made m) = m

  -- `m[k]`, with `none` for a missing key (and for a nil pointer under it).
  unfoldable pub get : GoMap V → Text → Option V
  get m k = find k (entries m)

  -- `m[k] = v`.
  unfoldable pub put : GoMap V → Text → V → Result (GoMap V)
  put nil_map k v = panic
  put (made m) k v = ok (made (assign k v m))

  -- `if m[k] == nil { m[k] = v }`.
  unfoldable pub put_absent : GoMap V → Text → V → Result (GoMap V)
  put_absent m k v = elim (get m k) [ none ↦ put m k v | some w ↦ ok m ]

  pub get-nil : (k : Text) → get nil_map k ≡ none
  unfolding get find
  get-nil k = refl

  pub get-made_nil : (k : Text) → get (made []) k ≡ none
  unfolding get find
  get-made_nil k = refl

  pub get-put :
      (m : GoMap V) (k j : Text) (v : V) {m' : GoMap V}
      → put m k v ≡ ok m'
      → get m' j ≡ (if text_eq k j then some v else get m j)
  unfolding get put
  get-put nil_map k j v h = cc
  get-put (made m) k j v {m'} h = ground (arith, find-assign k j v m)

abbrev pub IsMade {ℓ} : {V : Type ℓ} → GoMap V → Type 0
IsMade nil_map = ⊥
IsMade (made m) = Unit

abbrev pub and_then {ℓ κ} : {A : Type ℓ} {B : Type κ} → Option A → (A → Option B) → Option B
and_then none f = none
and_then (some a) f = f a

abbrev pub or_else {ℓ} : {A : Type ℓ} → Option A → A → A
or_else none d = d
or_else (some a) d = a
