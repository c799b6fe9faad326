-- ===== src/Java/Converter/Files.antt =====
-- Paths that are numbered in their order, as the caches of lang/java/ipc/converter.go number its files.
use abcoder.Base.{
  ℕ, zero, suc, ◌+◌, ◌≡◌, refl, ap, sym, ◌∙◌, List, [], ◌∷◌, ◌++◌, map, Option, none, some, arith,
  if◌then◌else◌, length, get_elem?, set, length-append, append_assoc,
}
use abcoder.Base.Text.{Text, text_eq, text_eq_iff}
use abcoder.Base.GoMap.{find, assign, and_then}
use abcoder.Uniast.Model.{File}
use abcoder.Java.Converter.{files_at}

unfoldable pub number : ℕ → List Text → List (Text × ℕ)
number k [] = []
number k (p ∷ ps) = (p, k) ∷ number (suc k) ps

unfoldable pub place : Text → List Text → Option ℕ
place p [] = none
place p (q ∷ ps) =
    let rest = place p ps in
    if text_eq q p then some 0 else elim rest [ none ↦ none | some i ↦ some (suc i) ]

-- A path is added once.
unfoldable pub add_path : Text → List Text → List Text
unfolding place
add_path p ps = elim (place p ps) [ none ↦ ps ++ p ∷ [] | some i ↦ ps ]

pub find-number-none :
    (p : Text) (k : ℕ) (ps : List Text) → place p ps ≡ none → find p (number k ps) ≡ none
unfolding place find number
find-number-none p k [] h = refl
find-number-none p k (q ∷ ps) h = ground (arith, find-number-none p (suc k) ps)

pub find-number-some :
    (p : Text) (k : ℕ) (ps : List Text) (i : ℕ)
    → place p ps ≡ some i
    → find p (number k ps) ≡ some (k + i)
unfolding place find number
find-number-some p k [] i h = absurd (cc)
find-number-some p k (q ∷ ps) zero h = ground arith
find-number-some p k (q ∷ ps) (suc i) h = ground (arith, find-number-some p (suc k) ps i)

pub assign-number :
    (p : Text) (k : ℕ) (ps : List Text)
    → place p ps ≡ none
    → assign p (k + length ps) (number k ps) ≡ number k (ps ++ p ∷ [])
unfolding place assign number
assign-number p k [] h = ground arith
assign-number p k (q ∷ ps) h = ground (arith, assign-number p (suc k) ps)

module _ (g : Text → File) where
  pub get_elem?-place :
      (p : Text) (ps : List Text) (i : ℕ)
      → place p ps ≡ some i
      → get_elem? (map g ps) i ≡ some (g p)
  unfolding place
  get_elem?-place p [] i h = absurd (cc)
  get_elem?-place p (q ∷ ps) zero h = ground (arith, text_eq_iff q p)
  get_elem?-place p (q ∷ ps) (suc i) h = ground (arith, get_elem?-place p ps i)

  pub set-place :
      (p : Text) (ps : List Text) (i : ℕ) → place p ps ≡ some i → set (map g ps) i (g p) ≡ map g ps
  unfolding place
  set-place p [] i h = absurd (cc)
  set-place p (q ∷ ps) zero h = ground (arith, text_eq_iff q p)
  set-place p (q ∷ ps) (suc i) h = ground (arith, set-place p ps i)

  pub map-append_one : (ps : List Text) (p : Text) → map g (ps ++ p ∷ []) ≡ map g ps ++ g p ∷ []
  map-append_one [] p = refl
  map-append_one (q ∷ ps) p = ap (λ xs. g q ∷ xs) (map-append_one ps p)

module _ {ℓ} {A : Type ℓ} where
  pub get_elem?-length :
      (xs : List A) (a : A) (ys : List A) → get_elem? (xs ++ a ∷ ys) (length xs) ≡ some a
  get_elem?-length [] a ys = refl
  get_elem?-length (x ∷ xs) a ys = get_elem?-length xs a ys

  pub set-length : (xs : List A) (a b : A) → set (xs ++ a ∷ []) (length xs) b ≡ xs ++ b ∷ []
  set-length [] a b = refl
  set-length (x ∷ xs) a b = ap (λ r. x ∷ r) (set-length xs a b)

module _ (g : Text → File) where
  -- the pointers of the last files of a heap
  pub files_at-number :
      (before : List File) (ps : List Text) (k : ℕ)
      → k ≡ length before
      → files_at (before ++ map g ps) (number k ps) ≡ some (map (λ p. (p, g p)) ps)
  unfolding files_at number
  files_at-number before [] k e = refl
  files_at-number before (p ∷ ps) k e =
      let found : get_elem? (before ++ g p ∷ map g ps) k ≡ some (g p) =
        ap (get_elem? (before ++ g p ∷ map g ps)) e ∙ get_elem?-length before (g p) (map g ps) in
      let more : files_at (before ++ g p ∷ map g ps) (number (suc k) ps)
          ≡ some (map (λ p. (p, g p)) ps) =
        ap (λ heap. files_at heap (number (suc k) ps))
          (sym (append_assoc before (g p ∷ []) (map g ps)))
        ∙ files_at-number (before ++ g p ∷ []) ps (suc k)
            (omega (arith, e, length-append before (g p ∷ []))) in
      ap
        (λ o. and_then o λ f.
          and_then (files_at (before ++ g p ∷ map g ps) (number (suc k) ps))
            λ more. some ((p, f) ∷ more))
        found
      ∙ ap (λ o. and_then o λ more. some ((p, g p) ∷ more)) more
