-- ===== src/Patch/Correct.antt =====
-- Splicing patches that lie apart: each replaces its own bytes, and the bytes between stay.
use abcoder.Base.{
  ℕ, zero, suc, ◌+◌, ◌-◌, ◌≤◌, ◌<◌, ◌≡◌, refl, ap, ◌∙◌, true, false, List, [], ◌∷◌, ◌++◌,
  append_assoc, arith, length, take, drop, length-append, length-drop, length-take,
}
use native.Mathlib.Nat.{zero-add, suc-add}
use abcoder.Base.Int.{pos, ◌+ℤ◌, ◌-ℤ◌, leb_ℤ, pos_part, neg_part, int_laws}
use abcoder.Base.Text.{Text}
use abcoder.Base.Result.{ok}
use abcoder.Patch.Sorted.{is_sorted}
use abcoder.Patch.Stable.{IsRearranged, sort_patches_unique}
use abcoder.Patch.Splice.{
  starts_before, PatchNode, slice_to, slice_from, apply_patch, apply_patches, splice,
}

abbrev pub start_of : PatchNode → ℕ
start_of n = pos_part n.file_line.start_offset

abbrev pub end_of : PatchNode → ℕ
end_of n = pos_part n.file_line.end_offset

-- The patches lie in `len` bytes from `p` on, in order and apart, and none starts at the end.
abbrev pub LieApart : ℕ → ℕ → List PatchNode → Type 0
LieApart p len [] = p ≤ len
LieApart p len (n ∷ ns) =
    (n.file_line.start_offset ≡ pos (start_of n))
    × (n.file_line.end_offset ≡ pos (end_of n))
    × (p ≤ start_of n)
    × (start_of n ≤ end_of n)
    × (start_of n < len)
    × LieApart (end_of n) len ns

-- No patch is shorter than what it replaces.
abbrev pub NoneShrinks : List PatchNode → Type 0
NoneShrinks [] = Unit
NoneShrinks (n ∷ ns) = (end_of n - start_of n ≤ length n.codes) × NoneShrinks ns

-- The bytes from `p` on, with the patches in place of what they cover.
pub replaced : ℕ → Text → List PatchNode → Text
replaced p bytes [] = drop p bytes
replaced p bytes (n ∷ ns) =
    take (start_of n - p) (drop p bytes) ++ (n.codes ++ replaced (end_of n) bytes ns)

take-append : (xs ys : Text) (k : ℕ) → take (length xs + k) (xs ++ ys) ≡ xs ++ take k ys
take-append [] ys k = rw zero-add
take-append (x ∷ xs) ys k = rw suc-add (ap (λ t. x ∷ t) (take-append xs ys k))

drop-append : (xs ys : Text) (k : ℕ) → drop (length xs + k) (xs ++ ys) ≡ drop k ys
drop-append [] ys k = rw zero-add
drop-append (x ∷ xs) ys k = rw suc-add (drop-append xs ys k)

drop-nil : (n : ℕ) → drop {A = ℕ} n [] ≡ []
drop-nil zero = refl
drop-nil (suc n) = refl

drop-drop : (xs : Text) (p e : ℕ) → p ≤ e → drop (e - p) (drop p xs) ≡ drop e xs
drop-drop xs zero e h = let same : e - 0 ≡ e = omega arith in rw same
drop-drop [] (suc p) e h = rw (drop-nil (e - suc p), drop-nil e)
drop-drop (x ∷ xs) (suc p) zero h = absurd (omega arith)
drop-drop (x ∷ xs) (suc p) (suc e) h =
    let same : suc e - suc p ≡ e - p = omega arith in rw same (drop-drop xs p e (omega arith))

pub slice_to-append :
    (xs ys : Text) (k : ℕ)
    → k ≤ length ys
    → slice_to (xs ++ ys) (pos (length xs + k)) ≡ ok (xs ++ take k ys)
unfolding slice_to
slice_to-append xs ys k h = ground (arith, length-append xs ys, take-append xs ys k)

pub slice_from-append :
    (xs ys : Text) (k : ℕ)
    → k ≤ length ys
    → slice_from (xs ++ ys) (pos (length xs + k)) ≡ ok (drop k ys)
unfolding slice_from
slice_from-append xs ys k h = ground (arith, length-append xs ys, drop-append xs ys k)

-- what is finished after a round
abbrev finished : Text → ℕ → Text → PatchNode → Text
finished done p bytes n = done ++ (take (start_of n - p) (drop p bytes) ++ n.codes)

length-finished :
    (done bytes : Text) (p : ℕ) (n : PatchNode)
    → start_of n < length bytes
    → length (finished done p bytes n) ≡ length done + (start_of n - p) + length n.codes
length-finished done bytes p n h = omega (
  arith,
  length-append done (take (start_of n - p) (drop p bytes) ++ n.codes),
  length-append (take (start_of n - p) (drop p bytes)) n.codes,
  length-take (start_of n - p) (drop p bytes),
  length-drop p bytes,
)

-- one round, with what is finished in front and the rest of the old bytes behind
apply_patch-lem :
    (done bytes : Text) (p : ℕ) (n : PatchNode)
    → p ≤ length done
    → n.file_line.start_offset ≡ pos (start_of n)
    → n.file_line.end_offset ≡ pos (end_of n)
    → p ≤ start_of n
    → start_of n ≤ end_of n
    → start_of n < length bytes
    → end_of n ≤ length bytes
    → end_of n - start_of n ≤ length n.codes
    → apply_patch (done ++ drop p bytes) (pos (length done - p)) n
      ≡ ok (
        finished done p bytes n ++ drop (end_of n) bytes,
        pos (length (finished done p bytes n) - end_of n),
      )
unfolding apply_patch
apply_patch-lem done bytes p n hd hs he h₁ h₂ h₃ h₄ h₅ =
    let s = start_of n in
    let e = end_of n in
    let rest = drop p bytes in
    let total : length (done ++ rest) ≡ length done + (length bytes - p) =
      omega (arith, length-append done rest, length-drop p bytes) in
    let plain_s = ap neg_part hs in
    let plain_e = ap neg_part he in
    let inside : leb_ℤ (pos (length (done ++ rest))) n.file_line.start_offset ≡ false =
      ground (arith, total, plain_s) in
    let at_s : pos (length done - p) +ℤ n.file_line.start_offset ≡ pos (length done + (s - p)) =
      omega (int_laws, plain_s) in
    let at_e : pos (length done - p) +ℤ n.file_line.end_offset ≡ pos (length done + (e - p)) =
      omega (int_laws, plain_e) in
    let head : slice_to (done ++ rest) (pos (length done - p) +ℤ n.file_line.start_offset)
        ≡ ok (done ++ take (s - p) rest) =
      ap (slice_to (done ++ rest)) at_s
      ∙ slice_to-append done rest (s - p) (omega (arith, length-drop p bytes)) in
    let tail : slice_from (done ++ rest) (pos (length done - p) +ℤ n.file_line.end_offset)
        ≡ ok (drop (e - p) rest) =
      ap (slice_from (done ++ rest)) at_e
      ∙ slice_from-append done rest (e - p) (omega (arith, length-drop p bytes)) in
    let moved : pos (length done - p)
          +ℤ (pos (length n.codes) -ℤ (n.file_line.end_offset -ℤ n.file_line.start_offset))
        ≡ pos (length (finished done p bytes n) - e) =
      omega (int_laws, plain_s, plain_e, length-finished done bytes p n h₃) in
    rw (inside, head, tail, moved, drop-drop bytes p e (omega arith)) (simp append_assoc)

LieApart-le : (p len : ℕ) (ns : List PatchNode) → LieApart p len ns → p ≤ len
LieApart-le p len [] h = h
LieApart-le p len (n ∷ ns) (hs, he, h₁, h₂, h₃, h) = omega arith

pub LieApart-is_sorted : (p len : ℕ) (ns : List PatchNode) → LieApart p len ns → is_sorted ns ≡ true
unfolding is_sorted starts_before
LieApart-is_sorted p len [] h = refl
LieApart-is_sorted p len (n ∷ []) h = refl
LieApart-is_sorted p len (n ∷ m ∷ ns) (hs, he, h₁, h₂, h₃, h) =
    ground
      (arith, ap neg_part hs, ap neg_part h.0, h.2, LieApart-is_sorted (end_of n) len (m ∷ ns) h)

-- The loop, from a place where everything before `p` is finished.
apply_patches-replaced :
    (done bytes : Text) (p : ℕ) (ns : List PatchNode)
    → p ≤ length done
    → LieApart p (length bytes) ns
    → NoneShrinks ns
    → apply_patches (done ++ drop p bytes) (pos (length done - p)) ns
      ≡ ok (done ++ replaced p bytes ns)
unfolding apply_patches replaced
apply_patches-replaced done bytes p [] hd h k = refl
apply_patches-replaced done bytes p (n ∷ ns) hd (hs, he, h₁, h₂, h₃, h) (k₁, k) =
    rw
      (apply_patch-lem done bytes p n hd hs he h₁ h₂ h₃ (LieApart-le (end_of n) (length bytes) ns h)
        k₁)
      (apply_patches-replaced (finished done p bytes n) bytes (end_of n) ns
          (omega (arith, length-finished done bytes p n h₃)) h k
        ∙ simp append_assoc)

-- Suppose that the patches of a file, put in the order of their start offsets, with those of one
-- start in the order in which they came, lie in the bytes and apart, that each starts before the
-- end of the bytes, and that each is at least as long as what it replaces. Then they are spliced
-- right, in whatever order they came: every patch stands in place of its own bytes, and all other
-- bytes are kept in order.
pub splice-replaced :
    (bytes : Text) (ns ms : List PatchNode)
    → IsRearranged ns ms
    → LieApart 0 (length bytes) ms
    → NoneShrinks ms
    → splice bytes ns ≡ ok (replaced 0 bytes ms)
unfolding splice
splice-replaced bytes ns ms same h k =
    rw (sort_patches_unique ns ms (LieApart-is_sorted 0 (length bytes) ms h) same)
      (apply_patches-replaced [] bytes 0 ms (omega arith) h k)
