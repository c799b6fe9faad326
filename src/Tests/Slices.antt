-- ===== src/Tests/Slices.antt =====
-- Tests of slices, caches, tokens and the graph's accessors.
use abcoder.Base.{ℕ, ◌≡◌, ◌≤◌, refl, Bool, true, List, [], ◌∷◌, some, arith, length}
use abcoder.Base.Int.{pos, negsuc, ltb_ℤ, leb_ℤ, ◌+ℤ◌, ◌-ℤ◌}
use abcoder.Base.Text.{Text, codes, text_eq, text_eq_iff}
use abcoder.Base.Result.{ok}
use abcoder.Util.Dedup.{contains, dedup_slice, has_no_repeats, dedup_slice-contains}
use abcoder.Golang.PackageCache.{
  new_package_cache, cache_get, cache_set, is_standard_package, IsRight, cache_get-cache_set,
  is_standard_package-IsRight,
}
use abcoder.Lsp.Position.{Position, relative_position_with_lines, offset_on, line_at, eq_ℤ}
use abcoder.Base.Search.{starts_with, index_text}
use abcoder.Lsp.Symbol.{Token}
use abcoder.Lsp.Tokens.{slice_text, token_left, clamp_start, clamp_end, find_in, find_single}
use abcoder.Lsp.Pair.{
  is_arrow, scan_pair, pair_tokens, pair_at, pair_in, find_pair, find_pair-bounds,
}

abbrev words : List Text
words = codes "a" ∷ codes "b" ∷ codes "a" ∷ []

dedup_slice-contains_example :
    (has_no_repeats text_eq (dedup_slice text_eq words) ≡ true)
    × ((v : Text) → contains text_eq (dedup_slice text_eq words) v ≡ contains text_eq words v)
dedup_slice-contains_example = dedup_slice-contains text_eq text_eq_iff words

cache_get-cache_set_example :
    (length (cache_set (new_package_cache 1) (codes "fmt") true).lru ≤ 1)
    × ((cache_get (cache_set (new_package_cache 1) (codes "fmt") true) (codes "fmt")).1 ≡ some true)
cache_get-cache_set_example =
    cache_get-cache_set (new_package_cache 1) (codes "fmt") true (omega arith) (omega arith)

-- An operating system that knows the package fmt only.
abbrev knows_fmt : Text → Bool
knows_fmt = text_eq (codes "fmt")

is_standard_package-IsRight_example :
    ((is_standard_package knows_fmt (new_package_cache 1) (codes "fmt")).1
      ≡ knows_fmt (codes "fmt"))
    × IsRight knows_fmt (is_standard_package knows_fmt (new_package_cache 1) (codes "fmt")).0.lru
is_standard_package-IsRight_example =
    is_standard_package-IsRight knows_fmt (new_package_cache 1) (codes "fmt") tt

abbrev token : ℕ → ℕ → Token
token s e = record {
  location = record {
    uri = [];
    range = record {
      start = record { line = pos 0; character = pos s };
      end = record { line = pos 0; character = pos e };
    };
  };
  token_type = [];
  modifiers = [];
  text = [];
}

abbrev origin : Position
origin = record { line = pos 0; character = pos 0 }

-- In `a=bc` the token to the left of the sign is the first one.
find_single_run :
    find_single
      (codes "a=bc")
      (pos 0 ∷ [])
      origin
      (token 0 1 ∷ token 2 4 ∷ [])
      (codes "=")
      (pos 0)
      (pos 9)
    ≡ ok (pos 0)
unfolding find_single find_in clamp_start clamp_end slice_text index_text starts_with token_left
    relative_position_with_lines offset_on line_at ◌+ℤ◌ ◌-ℤ◌
find_single_run = refl

-- In `a<b>` the brackets are the second token and the last one.
find_pair_run :
    find_pair
      (codes "a<b>")
      (pos 0 ∷ [])
      origin
      (token 0 1 ∷ token 1 2 ∷ token 2 3 ∷ token 3 4 ∷ token 4 4 ∷ [])
      b'<'
      b'>'
      (pos 0)
      (pos 9)
      b';'
    ≡ ok (pos 1, pos 3)
unfolding find_pair pair_in pair_at pair_tokens scan_pair is_arrow clamp_start clamp_end slice_text
    relative_position_with_lines offset_on line_at eq_ℤ ◌+ℤ◌ ◌-ℤ◌
find_pair_run = refl

find_pair-bounds_example :
    ((leb_ℤ (negsuc 0) (pos 1) ≡ true) × (ltb_ℤ (pos 1) (pos 5) ≡ true))
    × ((leb_ℤ (negsuc 0) (pos 3) ≡ true) × (ltb_ℤ (pos 3) (pos 5) ≡ true))
find_pair-bounds_example =
    find_pair-bounds (codes "a<b>") (pos 0 ∷ []) origin
      (token 0 1 ∷ token 1 2 ∷ token 2 3 ∷ token 3 4 ∷ token 4 4 ∷ []) b'<' b'>' (pos 0) (pos 9)
      b';' (pos 1) (pos 3) find_pair_run
