-- ===== src/Patch/Stable.antt =====
-- What the stable sort of the patches of a file gives, in Flush of lang/patch/lib.go.
use abcoder.Base.{
  ◌≡◌, refl, ap, sym, ◌∙◌, Bool, true, false, ◌&&◌, List, [], ◌∷◌, arith, if◌then◌else◌, Bool-cases,
  inl, inr,
}
use abcoder.Base.Int.{ℤ, ◌≤ℤ◌, leb_ℤ, eq_of_parts}
use abcoder.Base.Text.{All, All-map}
use abcoder.Patch.Splice.{PatchNode, starts_before, insert_patch, sort_patches}
use abcoder.Patch.Sorted.{is_sorted, sort_patches-is_sorted}

abbrev pub start : PatchNode → ℤ
start n = n.file_line.start_offset

abbrev pub starts_at : ℤ → PatchNode → Bool
starts_at k n = leb_ℤ (start n) k && leb_ℤ k (start n)

-- The patches that start at an offset, in their order.
unfoldable pub starting_at : ℤ → List PatchNode → List PatchNode
starting_at k [] = []
starting_at k (n ∷ ns) = if starts_at k n then n ∷ starting_at k ns else starting_at k ns

starting_at-cons :
    (k : ℤ) (n : PatchNode) (ns : List PatchNode)
    → starting_at k (n ∷ ns) ≡ (if starts_at k n then n ∷ starting_at k ns else starting_at k ns)
unfolding starting_at
starting_at-cons k n ns = refl

-- The same patches in another order, where patches of one start offset keep theirs.
abbrev pub IsRearranged : List PatchNode → List PatchNode → Type 0
IsRearranged ns ms = (k : ℤ) → starting_at k ns ≡ starting_at k ms

insert_patch-IsRearranged :
    (n : PatchNode) (ns : List PatchNode) → IsRearranged (n ∷ ns) (insert_patch n ns)
unfolding starting_at insert_patch starts_before
insert_patch-IsRearranged n [] k = refl
insert_patch-IsRearranged n (m ∷ ms) k = ground (arith, insert_patch-IsRearranged n ms k)

sort_patches-IsRearranged : (ns : List PatchNode) → IsRearranged ns (sort_patches ns)
unfolding sort_patches
sort_patches-IsRearranged [] k = refl
sort_patches-IsRearranged (n ∷ ns) k =
    starting_at-cons k n ns
    ∙ ap (λ r. if starts_at k n then n ∷ r else r) (sort_patches-IsRearranged ns k)
    ∙ sym (starting_at-cons k n (sort_patches ns))
    ∙ insert_patch-IsRearranged n (sort_patches ns) k

-- Nothing starts before the first of a list in order.
head-le :
    (n : PatchNode) (ns : List PatchNode)
    → is_sorted (n ∷ ns) ≡ true
    → All (λ m. start n ≤ℤ start m) ns
unfolding is_sorted starts_before
head-le n [] h = tt
head-le n (m ∷ ms) h =
    let le : start n ≤ℤ start m = ground arith in
    let more : is_sorted (m ∷ ms) ≡ true = ground arith in
    (le, All-map ms (λ x e. omega arith) (head-le m ms more))

tail-is_sorted :
    (n : PatchNode) (ns : List PatchNode) → is_sorted (n ∷ ns) ≡ true → is_sorted ns ≡ true
unfolding is_sorted
tail-is_sorted n [] h = refl
tail-is_sorted n (m ∷ ms) h = ground arith

-- What starts behind an offset does not start at it.
starting_at-behind :
    (k : ℤ) (ns : List PatchNode) → All (λ m. leb_ℤ (start m) k ≡ false) ns → starting_at k ns ≡ []
unfolding starting_at
starting_at-behind k [] h = refl
starting_at-behind k (n ∷ ns) (e, h) = ground (arith, starting_at-behind k ns h)

starting_at_self :
    (n : PatchNode) (ns : List PatchNode)
    → starting_at (start n) (n ∷ ns) ≡ n ∷ starting_at (start n) ns
unfolding starting_at
starting_at_self n ns = ground arith

-- a rearrangement in order starts no earlier
rearranged-le :
    (n m : PatchNode) (ns ms : List PatchNode)
    → is_sorted (m ∷ ms) ≡ true
    → IsRearranged (n ∷ ns) (m ∷ ms)
    → start m ≤ℤ start n
rearranged-le n m ns ms h same = elim (Bool-cases (leb_ℤ (start m) (start n))) [
  | inl le ↦ ground arith
  | inr gt ↦
      let none_there : starting_at (start n) (m ∷ ms) ≡ [] =
        starting_at-behind (start n) (m ∷ ms)
          (gt, All-map ms (λ x e. ground arith) (head-le m ms h)) in
      absurd (cc (same (start n), starting_at_self n ns, none_there))
]

starting_at-tail :
    (k : ℤ) (n m : PatchNode) (ns ms : List PatchNode)
    → n ≡ m
    → starting_at k (n ∷ ns) ≡ starting_at k (m ∷ ms)
    → starting_at k ns ≡ starting_at k ms
starting_at-tail k n m ns ms e h = elim (Bool-cases (starts_at k n)) [
  | inl at ↦
      let at' : starts_at k m ≡ true = sym (ap (starts_at k) e) ∙ at in
      cc (h, starting_at-cons k n ns, starting_at-cons k m ms)
  | inr off ↦
      let off' : starts_at k m ≡ false = sym (ap (starts_at k) e) ∙ off in
      cc (h, starting_at-cons k n ns, starting_at-cons k m ms)
]

-- Two lists in order that are rearrangements of each other are the same.
rearranged-eq :
    (ns ms : List PatchNode)
    → is_sorted ns ≡ true
    → is_sorted ms ≡ true
    → IsRearranged ns ms
    → ns ≡ ms
rearranged-eq [] [] h₁ h₂ same = refl
rearranged-eq [] (m ∷ ms) h₁ h₂ same =
    absurd (unfold starting_at in cc (same (start m), starting_at_self m ms))
rearranged-eq (n ∷ ns) [] h₁ h₂ same =
    absurd (unfold starting_at in cc (same (start n), starting_at_self n ns))
rearranged-eq (n ∷ ns) (m ∷ ms) h₁ h₂ same =
    let at : start n ≡ start m = eq_of_parts (start n) (start m) (
      omega
        (arith, rearranged-le n m ns ms h₂ same, rearranged-le m n ms ns h₁ (λ k. sym (same k)))) in
    let both : n ∷ starting_at (start n) ns ≡ m ∷ starting_at (start n) ms =
      sym (starting_at_self n ns) ∙ same (start n) ∙ rw at (starting_at_self m ms) in
    let heads : n ≡ m = cc in
    let tails : ns ≡ ms =
      rearranged-eq ns ms (tail-is_sorted n ns h₁) (tail-is_sorted m ms h₂)
        λ k. starting_at-tail k n m ns ms heads (same k) in
    cc

-- The sort gives the one list in order that rearranges the patches.
pub sort_patches_unique :
    (ns ms : List PatchNode) → is_sorted ms ≡ true → IsRearranged ns ms → sort_patches ns ≡ ms
sort_patches_unique ns ms h same =
    rearranged-eq (sort_patches ns) ms (sort_patches-is_sorted ns) h
      λ k. sym (sort_patches-IsRearranged ns k) ∙ same k
