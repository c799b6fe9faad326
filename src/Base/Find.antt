-- ===== src/Base/Find.antt =====
-- The first element of a list with a property.
use abcoder.Base.{Bool, List, [], ◌∷◌, Option, none, some, if◌then◌else◌}

module _ {ℓ} {A : Type ℓ} (p : A → Bool) where
  unfoldable pub first : List A → Option A
  first [] = none
  first (x ∷ xs) = if p x then some x else first xs
