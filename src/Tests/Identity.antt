-- ===== src/Tests/Identity.antt =====
-- Tests of names: identities, languages, node types and imports.
use abcoder.Base.{◌≡◌, refl, [], some, arith, take}
use abcoder.Base.Slices.{index_byte, last_index_byte}
use abcoder.Base.Text.{codes}
use abcoder.Uniast.Identity.{Identity, new_identity, new_identity_from_string, full, string}
use abcoder.Uniast.Identity.Parse.{
  new_identity_from_string-full, new_identity_from_string-string, full-new_identity_from_string,
}

abbrev odd_id : Identity
odd_id = new_identity (codes "m") (codes "p#?") (codes "F")

new_identity_from_string-full_example : new_identity_from_string (full odd_id) ≡ odd_id
new_identity_from_string-full_example =
    new_identity_from_string-full odd_id (λ e. omega arith, tt) (λ e. omega arith, tt)

new_identity_from_string-string_example :
    new_identity_from_string (string (new_identity (codes "m") (codes "p") (codes "F")))
    ≡ new_identity [] (codes "p") (codes "F")
new_identity_from_string-string_example =
    new_identity_from_string-string (new_identity (codes "m") (codes "p") (codes "F"))
      (λ e. omega arith, tt) (λ e. omega arith, tt)

hash_run : last_index_byte b'#' (codes "m?p#F") ≡ some 3
unfolding index_byte last_index_byte
hash_run = refl

question_run : index_byte b'?' (take 3 (codes "m?p#F")) ≡ some 1
unfolding index_byte last_index_byte
question_run = refl

full-new_identity_from_string_example :
    full (new_identity_from_string (codes "m?p#F")) ≡ codes "m?p#F"
full-new_identity_from_string_example =
    full-new_identity_from_string (codes "m?p#F") 3 1 hash_run question_run
