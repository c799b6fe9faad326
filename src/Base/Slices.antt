-- ===== src/Base/Slices.antt =====
-- Searching a text for a byte, as strings.Index and strings.LastIndex do for a one-byte separator,
-- and slicing at the place that was found.
use abcoder.Base.{
  ℕ, zero, suc, ◌≡◌, refl, ap, Bool, true, false, List, [], ◌∷◌, ◌++◌, Option, none, some, arith,
  ◌==◌, ==_iff, if◌then◌else◌, length, take, drop,
}
use abcoder.Base.Text.{Text, Lacks}

abbrev pub shift : Option ℕ → Option ℕ
shift none = none
shift (some i) = some (suc i)

unfoldable pub index_byte : ℕ → Text → Option ℕ
index_byte b [] = none
index_byte b (c ∷ s) = if c == b then some 0 else shift (index_byte b s)

-- what the end of a text says of an earlier byte
abbrev pub last_of : Bool → Option ℕ → Option ℕ
last_of hit (some i) = some (suc i)
last_of true none = some 0
last_of false none = none

unfoldable pub last_index_byte : ℕ → Text → Option ℕ
last_index_byte b [] = none
last_index_byte b (c ∷ s) = last_of (c == b) (last_index_byte b s)

pub index_byte-append :
    (b : ℕ) (s t : Text) → Lacks b s → index_byte b (s ++ b ∷ t) ≡ some (length s)
unfolding index_byte
index_byte-append b [] t h = ground arith
index_byte-append b (c ∷ s) t (hc, hs) = ground (arith, index_byte-append b s t hs)

pub index_byte-Lacks : (b : ℕ) (s : Text) → Lacks b s → index_byte b s ≡ none
unfolding index_byte
index_byte-Lacks b [] h = refl
index_byte-Lacks b (c ∷ s) (hc, hs) = ground (arith, index_byte-Lacks b s hs)

pub last_index_byte-Lacks : (b : ℕ) (s : Text) → Lacks b s → last_index_byte b s ≡ none
unfolding last_index_byte
last_index_byte-Lacks b [] h = refl
last_index_byte-Lacks b (c ∷ s) (hc, hs) = ground (arith, last_index_byte-Lacks b s hs)

pub last_index_byte-append :
    (b : ℕ) (s t : Text) → Lacks b t → last_index_byte b (s ++ b ∷ t) ≡ some (length s)
unfolding last_index_byte
last_index_byte-append b [] t h = ground (arith, last_index_byte-Lacks b t h)
last_index_byte-append b (c ∷ s) t h = ground (arith, last_index_byte-append b s t h)

pub index_byte-split :
    (b : ℕ) (s : Text) (i : ℕ) → index_byte b s ≡ some i → take i s ++ b ∷ drop (suc i) s ≡ s
unfolding index_byte
index_byte-split b [] i h = cc
index_byte-split b (c ∷ s) zero h = ground (arith, ==_iff c b)
index_byte-split b (c ∷ s) (suc i) h = ground (arith, index_byte-split b s i)

pub last_index_byte-split :
    (b : ℕ) (s : Text) (i : ℕ) → last_index_byte b s ≡ some i → take i s ++ b ∷ drop (suc i) s ≡ s
unfolding last_index_byte
last_index_byte-split b [] i h = cc
last_index_byte-split b (c ∷ s) zero h = ground (arith, ==_iff c b)
last_index_byte-split b (c ∷ s) (suc i) h = ground (arith, last_index_byte-split b s i)

pub take-length-append {ℓ} : {A : Type ℓ} (s t : List A) → take (length s) (s ++ t) ≡ s
take-length-append [] [] = refl
take-length-append [] (c ∷ t) = refl
take-length-append (c ∷ s) t = ap (λ r. c ∷ r) (take-length-append s t)

pub drop-length-append {ℓ} : {A : Type ℓ} (s t : List A) → drop (length s) (s ++ t) ≡ t
drop-length-append [] t = refl
drop-length-append (c ∷ s) t = drop-length-append s t

pub drop-suc-length-append {ℓ} :
    {A : Type ℓ} (s : List A) (a : A) (t : List A) → drop (suc (length s)) (s ++ a ∷ t) ≡ t
drop-suc-length-append [] a t = refl
drop-suc-length-append (c ∷ s) a t = drop-suc-length-append s a t
