-- ===== src/Uniast/Identity/CallName.antt =====
-- CallName prints the last part of the package path, a dot, and the name.
use abcoder.Base.{ℕ, ◌≡◌, refl, [], ◌∷◌, ◌++◌, arith}
use abcoder.Base.Text.{Text, Lacks, text_eq}
use abcoder.Base.Slices.{last_index_byte-append, last_index_byte-Lacks, drop-suc-length-append}
use abcoder.Uniast.Identity.{new_identity, call_name, base, trim_slashes}

-- without a slash at the end, nothing is trimmed
trim_slashes-Lacks : (c : ℕ) (s : Text) → Lacks b'/' (c ∷ s) → trim_slashes (c ∷ s) ≡ c ∷ s
unfolding trim_slashes text_eq
trim_slashes-Lacks c [] (hc, hs) = ground arith
trim_slashes-Lacks c (d ∷ s) (hc, hs) = ground (arith, trim_slashes-Lacks d s hs)

trim_slashes-append :
    (dir : Text) (c : ℕ) (s : Text)
    → Lacks b'/' (c ∷ s)
    → trim_slashes (dir ++ b'/' ∷ (c ∷ s)) ≡ dir ++ b'/' ∷ (c ∷ s)
unfolding trim_slashes text_eq
trim_slashes-append [] c s h = ground (arith, trim_slashes-Lacks c s h)
trim_slashes-append (d ∷ []) c s h = ground (arith, trim_slashes-append [] c s h)
trim_slashes-append (d ∷ e ∷ dir) c s h = ground (arith, trim_slashes-append (e ∷ dir) c s h)

base-append :
    (dir : Text) (c : ℕ) (s : Text) → Lacks b'/' (c ∷ s) → base (dir ++ b'/' ∷ (c ∷ s)) ≡ c ∷ s
unfolding base text_eq
base-append [] c s h = ground (
  arith,
  trim_slashes-append [] c s h,
  last_index_byte-append b'/' [] (c ∷ s) h,
  drop-suc-length-append [] b'/' (c ∷ s),
)
base-append (d ∷ dir) c s h = ground (
  arith,
  trim_slashes-append (d ∷ dir) c s h,
  last_index_byte-append b'/' (d ∷ dir) (c ∷ s) h,
  drop-suc-length-append (d ∷ dir) b'/' (c ∷ s),
)

base_plain : (c : ℕ) (s : Text) → Lacks b'/' (c ∷ s) → base (c ∷ s) ≡ c ∷ s
unfolding base text_eq
base_plain c s h = ground (arith, trim_slashes-Lacks c s h, last_index_byte-Lacks b'/' (c ∷ s) h)

-- A node of the package dir/part, or of the package part, is called part.Name, where part is not
-- empty and has no slash; a node of the empty package is called Name.
pub call_name_parts :
    (m dir n : Text) (c : ℕ) (part : Text)
    → Lacks b'/' (c ∷ part)
    → (call_name (new_identity m (dir ++ b'/' ∷ (c ∷ part)) n) ≡ (c ∷ part) ++ b'.' ∷ n)
      × (call_name (new_identity m (c ∷ part) n) ≡ (c ∷ part) ++ b'.' ∷ n)
      × (call_name (new_identity m [] n) ≡ n)
unfolding call_name text_eq
call_name_parts m [] n c part h =
    (ground (arith, base-append [] c part h), ground (arith, base_plain c part h), refl)
call_name_parts m (d ∷ dir) n c part h =
    (ground (arith, base-append (d ∷ dir) c part h), ground (arith, base_plain c part h), refl)
