-- ===== src/Patch/Splice.antt =====
-- The loop of Flush that splices the patches of one file into its bytes, and the sort before it.
-- A slice beyond the length of the data panics here; Go panics beyond its capacity.
use abcoder.Base.{Bool, List, [], ◌∷◌, ◌++◌, if◌then◌else◌, leb, length, take, drop}
use abcoder.Base.Int.{ℤ, pos, negsuc, ◌+ℤ◌, ◌-ℤ◌, leb_ℤ, ltb_ℤ}
use abcoder.Base.Text.{Text}
use abcoder.Base.Result.{Result, ok, panic, ◌>>=◌}
use abcoder.Uniast.Identity.{Identity}
use abcoder.Uniast.Model.{File, FileLine}

-- The file of a patch is a pointer: into the files of its module, or to a file of its own where
-- CreateFile did not keep it.
pub data FileRef : Type 0 where
  kept : Text → Text → FileRef
  dangling : File → FileRef

pub record PatchNode : Type 0 where
  pub identity : Identity
  pub file_line : FileLine
  pub codes : Text
  pub file : FileRef

-- data[:k:k] and data[k:].
unfoldable pub slice_to : Text → ℤ → Result Text
slice_to bytes (pos k) = if leb k (length bytes) then ok (take k bytes) else panic
slice_to bytes (negsuc k) = panic

unfoldable pub slice_from : Text → ℤ → Result Text
slice_from bytes (pos k) = if leb k (length bytes) then ok (drop k bytes) else panic
slice_from bytes (negsuc k) = panic

-- One round: a patch that starts at or behind the end is appended on a new line.
unfoldable pub apply_patch : Text → ℤ → PatchNode → Result (Text × ℤ)
unfolding slice_to slice_from
apply_patch bytes offset n =
    if leb_ℤ (pos (length bytes)) n.file_line.start_offset
    then ok (bytes ++ (b'\n' ∷ n.codes), offset)
    else do
      head ← slice_to bytes (offset +ℤ n.file_line.start_offset)
      tail ← slice_from bytes (offset +ℤ n.file_line.end_offset)
      ok (
        head ++ (n.codes ++ tail),
        offset +ℤ (pos (length n.codes) -ℤ (n.file_line.end_offset -ℤ n.file_line.start_offset)),
      )

unfoldable pub apply_patches : Text → ℤ → List PatchNode → Result Text
apply_patches bytes offset [] = ok bytes
apply_patches bytes offset (n ∷ ns) =
    apply_patch bytes offset n >>= λ out. apply_patches out.0 out.1 ns

-- sort.SliceStable by the start offset.
unfoldable pub starts_before : PatchNode → PatchNode → Bool
starts_before a b = ltb_ℤ a.file_line.start_offset b.file_line.start_offset

unfoldable pub insert_patch : PatchNode → List PatchNode → List PatchNode
unfolding starts_before
insert_patch x [] = x ∷ []
insert_patch x (y ∷ ys) = if starts_before y x then y ∷ insert_patch x ys else x ∷ y ∷ ys

unfoldable pub sort_patches : List PatchNode → List PatchNode
unfolding insert_patch
sort_patches [] = []
sort_patches (x ∷ xs) = insert_patch x (sort_patches xs)

unfoldable pub splice : Text → List PatchNode → Result Text
unfolding apply_patches sort_patches
splice bytes ns = apply_patches bytes (pos 0) (sort_patches ns)
