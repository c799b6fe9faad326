-- ===== src/Base/Result.antt =====
-- A Go call that may panic (a nil dereference, a write to a nil map, an index out of range).
use abcoder.Base.{List, [], ◌∷◌, ◌≡◌, refl, Option, none, some}

pub data Result {ℓ} (A : Type ℓ) : Type ℓ where
  ok : A → Result A
  panic : Result A

infixl 5 ◌>>=◌
abbrev pub ◌>>=◌ {ℓ κ} : {A : Type ℓ} {B : Type κ} → Result A → (A → Result B) → Result B
ok a >>= f = f a
panic >>= f = panic

-- The use of a pointer that may be nil.
abbrev pub deref {ℓ} : {A : Type ℓ} → Option A → Result A
deref none = panic
deref (some a) = ok a

-- Inversion of a successful chain.
pub bind_ok {ℓ κ μ} :
    {A : Type ℓ} {B : Type κ} {C : Type μ} (m : Result A) (f : A → Result B) {b : B}
    → (m >>= f) ≡ ok b
    → ((a : A) → m ≡ ok a → f a ≡ ok b → C)
    → C
bind_ok (ok a) f h k = k a refl h
bind_ok panic f h k = absurd (cc)

-- A loop whose body may panic.
unfoldable pub each {ℓ κ} : {S : Type ℓ} {A : Type κ} → (S → A → Result S) → List A → S → Result S
each body [] s = ok s
each body (a ∷ rest) s = body s a >>= each body rest

pub ok-injective {ℓ} : {A : Type ℓ} {a b : A} → ok a ≡ ok b → a ≡ b
ok-injective h = cc
