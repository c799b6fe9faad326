-- ===== src/Util/Dedup.antt =====
-- DedupSlice and Contains of lang/utils/strings.go, and DedupSlice and Append of
-- internal/utils/slice.go. The type parameter's operator == is a section parameter.
use abcoder.Base.{
  ◌≡◌, ◌↔◌, refl, Bool, true, false, not, ◌&&◌, List, [], ◌∷◌, ◌++◌, arith, if◌then◌else◌,
}

module _ {ℓ} {T : Type ℓ} (same : T → T → Bool) where
  unfoldable pub contains : List T → T → Bool
  contains [] v = false
  contains (vv ∷ s) v = if same vv v then true else contains s v

  -- The loop of DedupSlice, with the elements that were seen.
  unfoldable pub dedup_loop : List T → List T → List T
  unfolding contains
  dedup_loop seen [] = []
  dedup_loop seen (v ∷ s) =
      let skip = dedup_loop seen s in
      let keep = dedup_loop (v ∷ seen) s in if contains seen v then skip else v ∷ keep

  unfoldable pub dedup_slice : List T → List T
  unfolding dedup_loop
  dedup_slice s = dedup_loop [] s

  -- Append skips an element that is there already, also one that it has just appended.
  unfoldable pub append_missing : List T → List T → List T
  unfolding contains
  append_missing s [] = s
  append_missing s (v ∷ vs) =
      let skip = append_missing s vs in
      let grown = append_missing (s ++ v ∷ []) vs in if contains s v then skip else grown

  -- no element equals a later one
  unfoldable pub has_no_repeats : List T → Bool
  unfolding contains
  has_no_repeats [] = true
  has_no_repeats (v ∷ s) = not (contains s v) && has_no_repeats s

  module _ (same_iff : (a b : T) → (same a b ≡ true) ↔ (a ≡ b)) where
    contains-dedup_loop :
        (seen s : List T) (v : T)
        → contains (dedup_loop seen s) v ≡ (not (contains seen v) && contains s v)
    unfolding contains dedup_loop
    contains-dedup_loop seen [] v = ground arith
    contains-dedup_loop seen (x ∷ s) v =
        ground
          (arith, contains-dedup_loop seen s v, contains-dedup_loop (x ∷ seen) s v, same_iff x v)

    dedup_loop-has_no_repeats : (seen s : List T) → has_no_repeats (dedup_loop seen s) ≡ true
    unfolding has_no_repeats dedup_loop contains
    dedup_loop-has_no_repeats seen [] = refl
    dedup_loop-has_no_repeats seen (x ∷ s) = ground (
      arith,
      dedup_loop-has_no_repeats seen s,
      dedup_loop-has_no_repeats (x ∷ seen) s,
      contains-dedup_loop (x ∷ seen) s x,
      same_iff x x,
    )

    -- DedupSlice gives a slice with no repeats that has the elements of the old one and no others.
    pub dedup_slice-contains :
        (s : List T)
        → (has_no_repeats (dedup_slice s) ≡ true)
          × ((v : T) → contains (dedup_slice s) v ≡ contains s v)
    unfolding dedup_slice contains
    dedup_slice-contains s =
        (dedup_loop-has_no_repeats [] s, λ v. ground (arith, contains-dedup_loop [] s v))
