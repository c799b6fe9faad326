-- ===== src/Uniast/Graph/Sort/Canonical.antt =====
-- The order that the end of BuildGraph (lang/uniast/node.go) gives the relations of a node.
use abcoder.Base.{◌≡◌, refl, true, false, List, [], ◌∷◌, arith, Bool-cases, inl, inr}
use abcoder.Base.Int.{◌≤ℤ◌}
use abcoder.Base.Text.{Text, text_eq_iff, text_lt, text_lt_asymm}
use abcoder.Uniast.Identity.{full}
use abcoder.Uniast.Model.{Relation}
use abcoder.Uniast.Graph.Sort.{kind_name, less, insert_sorted, sort_relations}
use mathlib.Core.List.{Perm, Permᴰ}
use mathlib.Core.List.Permᴰ

text_lt_irrefl : (s : Text) → text_lt s s ≡ false
unfolding text_lt
text_lt_irrefl [] = refl
text_lt_irrefl (c ∷ s) = ground (arith, text_lt_irrefl s)

-- The first text is the second or comes before it.
abbrev pub AtMost : Text → Text → Type 0
AtMost s t = text_lt t s ≡ false

-- The relations may follow each other: by the printed identity, where that is the same by the line,
-- and where that is the same too by the kind.
pub record Follows (x y : Relation) : Type 0 where
  pub by_identity : AtMost (full x.identity) (full y.identity)
  pub by_line : full x.identity ≡ full y.identity → x.line ≤ℤ y.line
  pub by_kind :
      full x.identity ≡ full y.identity
      → x.line ≡ y.line
      → AtMost (kind_name x.kind) (kind_name y.kind)

-- Each relation may follow the one before it.
pub data IsCanonical : List Relation → Type 0 where
  none_left : IsCanonical []
  one_left : (x : Relation) → IsCanonical (x ∷ [])
  two_left :
      (x y : Relation) (ys : List Relation)
      → Follows x y
      → IsCanonical (y ∷ ys)
      → IsCanonical (x ∷ y ∷ ys)

not_less-Follows : (x y : Relation) → less y x ≡ false → Follows x y
unfolding less
not_less-Follows x y h = record {
  by_identity =
      ground
        (arith, text_eq_iff (full y.identity) (full x.identity), text_lt_irrefl (full x.identity));
  by_line = λ e. ground (arith, text_eq_iff (full y.identity) (full x.identity));
  by_kind = λ e l. ground (arith, text_eq_iff (full y.identity) (full x.identity));
}

less-Follows : (x y : Relation) → less x y ≡ true → Follows x y
unfolding less
less-Follows x y h = record {
  by_identity = ground (
    arith,
    text_eq_iff (full x.identity) (full y.identity),
    text_lt_irrefl (full x.identity),
    text_lt_asymm (full x.identity) (full y.identity),
  );
  by_line = λ e. ground (arith, text_eq_iff (full x.identity) (full y.identity));
  by_kind = λ e l. ground (
    arith,
    text_eq_iff (full x.identity) (full y.identity),
    text_lt_asymm (kind_name x.kind) (kind_name y.kind),
  );
}

insert_sorted-IsCanonical :
    (x : Relation) {ys : List Relation} → IsCanonical ys → IsCanonical (insert_sorted x ys)
unfolding insert_sorted
insert_sorted-IsCanonical x none_left = one_left x
insert_sorted-IsCanonical x (one_left y) = elim (Bool-cases (less y x)) [
  | inl e ↦ rw e (two_left y x [] (less-Follows y x e) (one_left x))
  | inr e ↦ rw e (two_left x y [] (not_less-Follows x y e) (one_left y))
]
insert_sorted-IsCanonical x (two_left y z zs f more) =
    let rest : IsCanonical (insert_sorted x (z ∷ zs)) = insert_sorted-IsCanonical x more in
    elim (Bool-cases (less y x)) [
      | inr e ↦ rw e (two_left x y (z ∷ zs) (not_less-Follows x y e) (two_left y z zs f more))
      | inl e ↦ elim (Bool-cases (less z x)) [
        | inl e' ↦ rw (e, e') (two_left y z (insert_sorted x zs) f (rw e' at rest))
        | inr e' ↦ rw (e, e') (two_left y x (z ∷ zs) (less-Follows y x e) (rw e' at rest))
      ]
    ]

insert_sorted-Permᴰ : (x : Relation) (ys : List Relation) → Permᴰ (x ∷ ys) (insert_sorted x ys)
unfolding insert_sorted
insert_sorted-Permᴰ x [] = Permᴰ.refl (x ∷ [])
insert_sorted-Permᴰ x (y ∷ ys) =
    let rest = insert_sorted-Permᴰ x ys in
    elim (Bool-cases (less y x)) [
      | inl e ↦ rw e (Permᴰ.trans (Permᴰ.swap refl refl) (Permᴰ.cons refl rest))
      | inr e ↦ rw e (Permᴰ.refl (x ∷ y ∷ ys))
    ]

sort_relations-Permᴰ : (xs : List Relation) → Permᴰ xs (sort_relations xs)
unfolding sort_relations
sort_relations-Permᴰ [] = Permᴰ.nil
sort_relations-Permᴰ (x ∷ xs) =
    Permᴰ.trans (Permᴰ.cons refl (sort_relations-Permᴰ xs))
      (insert_sorted-Permᴰ x (sort_relations xs))

-- The sort at the end of BuildGraph gives a slice the same relations, and of each two neighbours
-- the first has the smaller printed identity, or the same and then the smaller line, or both the
-- same and then no larger kind.
pub sort_relations-IsCanonical :
    (xs : List Relation) → Perm xs (sort_relations xs) × IsCanonical (sort_relations xs)
unfolding sort_relations
sort_relations-IsCanonical [] = (∣ Permᴰ.nil ∣₁, none_left)
sort_relations-IsCanonical (x ∷ xs) = (
  ∣ sort_relations-Permᴰ (x ∷ xs) ∣₁,
  insert_sorted-IsCanonical x (sort_relations-IsCanonical xs).1,
)
