-- ===== src/Patch/Sorted.antt =====
-- The stable sort of the patches of a file.
use abcoder.Base.{◌≡◌, refl, Bool, true, not, ◌&&◌, List, [], ◌∷◌, arith}
use abcoder.Patch.Splice.{PatchNode, starts_before, insert_patch, sort_patches}

unfoldable pub is_sorted : List PatchNode → Bool
is_sorted [] = true
is_sorted (x ∷ []) = true
is_sorted (x ∷ y ∷ ys) = not (starts_before y x) && is_sorted (y ∷ ys)

insert_patch-is_sorted :
    (x : PatchNode) (ys : List PatchNode)
    → is_sorted ys ≡ true
    → is_sorted (insert_patch x ys) ≡ true
unfolding is_sorted insert_patch
insert_patch-is_sorted x [] h = refl
insert_patch-is_sorted x (y ∷ []) h = ground arith
insert_patch-is_sorted x (y ∷ z ∷ zs) h = ground (arith, insert_patch-is_sorted x (z ∷ zs))

-- Sorting leaves the patches in the order of their start offsets.
pub sort_patches-is_sorted : (xs : List PatchNode) → is_sorted (sort_patches xs) ≡ true
unfolding sort_patches
sort_patches-is_sorted [] = unfold is_sorted in refl
sort_patches-is_sorted (x ∷ xs) =
    insert_patch-is_sorted x (sort_patches xs) (sort_patches-is_sorted xs)

-- A list that is in order already is left as it is.
pub sort_patches-sorted : (xs : List PatchNode) → is_sorted xs ≡ true → sort_patches xs ≡ xs
unfolding sort_patches is_sorted
sort_patches-sorted [] h = refl
sort_patches-sorted (x ∷ []) h = refl
sort_patches-sorted (x ∷ y ∷ ys) h = ground (arith, sort_patches-sorted (y ∷ ys))
