-- ===== src/Patch/Shrink.antt =====
-- What becomes of a patch behind one that is shorter than what it replaces.
use abcoder.Base.{
  ◌+◌, ◌-◌, ◌≤◌, ◌<◌, ◌≡◌, ap, [], ◌∷◌, ◌++◌, arith, length, take, drop, length-append, length-drop,
  length-take,
}
use abcoder.Base.Int.{ℤ, pos, ◌+ℤ◌, ◌-ℤ◌, neg_part, int_laws}
use abcoder.Base.Text.{Text}
use abcoder.Base.Result.{ok}
use abcoder.Patch.Splice.{PatchNode, slice_to, slice_from, apply_patch, apply_patches, splice}
use abcoder.Patch.Sorted.{sort_patches-sorted}
use abcoder.Patch.Correct.{start_of, end_of, LieApart, LieApart-is_sorted}

-- the first round, whatever the patch's length
first_round :
    (bytes : Text) (a : PatchNode)
    → a.file_line.start_offset ≡ pos (start_of a)
    → a.file_line.end_offset ≡ pos (end_of a)
    → start_of a < length bytes
    → end_of a ≤ length bytes
    → (offset : ℤ) × (apply_patch bytes (pos 0) a
        ≡ ok (take (start_of a) bytes ++ (a.codes ++ drop (end_of a) bytes), offset))
unfolding apply_patch slice_to slice_from
first_round bytes a hs he h₁ h₂ =
    let at_s : pos 0 +ℤ a.file_line.start_offset ≡ pos (start_of a) =
      omega (int_laws, ap neg_part hs) in
    let at_e : pos 0 +ℤ a.file_line.end_offset ≡ pos (end_of a) =
      omega (int_laws, ap neg_part he) in
    (
      pos 0 +ℤ (pos (length a.codes) -ℤ (a.file_line.end_offset -ℤ a.file_line.start_offset)),
      ground (arith, at_s, at_e, ap neg_part hs),
    )

-- Where the first of two patches that lie apart takes away so much that the data end before the
-- second one's old start, the second does not replace its bytes: they stay, and its codes are
-- appended on a line of their own.
pub splice_shrunk :
    (bytes : Text) (a b : PatchNode)
    → LieApart 0 (length bytes) (a ∷ b ∷ [])
    → start_of a + length a.codes + (length bytes - end_of a) ≤ start_of b
    → splice bytes (a ∷ b ∷ [])
      ≡ ok ((take (start_of a) bytes ++ (a.codes ++ drop (end_of a) bytes)) ++ (b'\n' ∷ b.codes))
unfolding splice apply_patches apply_patch
splice_shrunk bytes a b apart shrunk =
    let (hs, he, h₁, h₂, h₃, rest) = apart in
    let (offset, first) = first_round bytes a hs he h₃ (omega arith) in
    let short : length (take (start_of a) bytes ++ (a.codes ++ drop (end_of a) bytes))
        ≤ start_of b =
      omega (
        arith,
        length-append (take (start_of a) bytes) (a.codes ++ drop (end_of a) bytes),
        length-append a.codes (drop (end_of a) bytes),
        length-take (start_of a) bytes,
        length-drop (end_of a) bytes,
      ) in
    rw (sort_patches-sorted (a ∷ b ∷ []) (LieApart-is_sorted 0 (length bytes) (a ∷ b ∷ []) apart))
      (rw first (ground (arith, short, ap neg_part rest.0)))
