-- ===== src/Uniast/Relations.antt =====
-- lang/uniast/utils.go: appending to a slice unless an equal element is there. Also Import.Equals.
use abcoder.Base.{
  ◌≡◌, refl, Bool, true, false, ◌&&◌, ◌||◌, ◌↔◌, List, [], ◌∷◌, Option, none, some, arith,
  if◌then◌else◌,
}
use abcoder.Base.Text.{Text, text_eq, text_eq_iff}
use abcoder.Uniast.Identity.{Identity, id_eq, id_eq_iff, full}
use abcoder.Uniast.Model.{Dependency, Import, Relation}

-- The loop that the four functions share: `same` compares an element with the new one.
unfoldable pub append_new {ℓ} : {A : Type ℓ} → (A → A → Bool) → List A → A → List A
append_new same [] a = a ∷ []
append_new same (x ∷ xs) a = if same x a then x ∷ xs else x ∷ append_new same xs a

unfoldable pub append_identity : List Identity → Identity → List Identity
unfolding append_new
append_identity ids id = append_new id_eq ids id

unfoldable pub insert_dependency : List Dependency → Dependency → List Dependency
unfolding append_new
insert_dependency ids id = append_new (λ a b. id_eq a.identity b.identity) ids id

unfoldable pub insert_import : List Import → Import → List Import
unfolding append_new
insert_import ids id = append_new (λ a b. text_eq a.path b.path) ids id

unfoldable pub insert_relation : List Relation → Relation → List Relation
unfolding append_new
insert_relation ids id = append_new (λ a b. id_eq a.identity b.identity) ids id

unfoldable pub alias_equals : Option Text → Option Text → Bool
alias_equals none none = true
alias_equals none (some b) = false
alias_equals (some a) none = false
alias_equals (some a) (some b) = text_eq a b

unfoldable pub import_equals : Import → Import → Bool
unfolding alias_equals
import_equals i other = alias_equals i.alias other.alias && text_eq i.path other.path

alias_equals_iff : (a b : Option Text) → (alias_equals a b ≡ true) ↔ (a ≡ b)
unfolding alias_equals
alias_equals_iff none none = (λ _. refl, λ _. refl)
alias_equals_iff none (some b) = (λ h. cc, λ h. cc)
alias_equals_iff (some a) none = (λ h. cc, λ h. cc)
alias_equals_iff (some a) (some b) =
    (λ h. ground (arith, text_eq_iff a b), λ h. ground (arith, text_eq_iff a b))

-- Equals decides whether two imports are the same, alias and path.
pub import_equals_iff : (a b : Import) → (import_equals a b ≡ true) ↔ (a ≡ b)
unfolding import_equals
import_equals_iff a b = (
  λ h. ground (arith, alias_equals_iff a.alias b.alias, text_eq_iff a.path b.path),
  λ h. ground (arith, alias_equals_iff a.alias b.alias, text_eq_iff a.path b.path),
)

-- some relation of the list leads to the node with this key
unfoldable pub targets : Text → List Relation → Bool
targets k [] = false
targets k (x ∷ xs) = text_eq (full x.identity) k || targets k xs

pub targets-insert_relation :
    (k : Text) (xs : List Relation) (x : Relation)
    → targets k (insert_relation xs x) ≡ (text_eq (full x.identity) k || targets k xs)
unfolding targets insert_relation append_new
targets-insert_relation k [] x = refl
targets-insert_relation k (y ∷ ys) x =
    ground (arith, targets-insert_relation k ys x, id_eq_iff y.identity x.identity)
