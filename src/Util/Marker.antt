-- ===== src/Util/Marker.antt =====
-- internal/utils/marker.go: blocks of code and of XML in the answers of a model.
pub mod Blocks
pub mod Ends
use abcoder.Base.{
  ℕ, zero, suc, ◌+◌, ◌-◌, ◌≤◌, ◌<◌, ◌≡◌, ◌≢◌, refl, ap, sym, ◌∙◌, Bool, true, false, List, [], ◌∷◌,
  ◌++◌, Option, none, some, arith, ◌==◌, leb, if◌then◌else◌, length, take, drop, append_assoc,
  length-append, length-drop, Option-cases, inl, inr,
}
use abcoder.Base.Int.{ℤ, pos, negsuc}
use abcoder.Base.Text.{Text, codes, text_eq, All, Lacks}
use abcoder.Base.Slices.{index_byte, take-length-append, drop-length-append}
use abcoder.Base.Search.{starts_with, index_text, later, starts_with-append}
use abcoder.Uniast.Language.{Language, golang, rust}

abbrev pub markdown_code_block : Text
markdown_code_block = codes "```"

unfoldable pub lang_to_md_block : Language → Text
unfolding text_eq
lang_to_md_block lang =
    if text_eq lang golang then codes "go" else if text_eq lang rust then codes "rust" else []

unfoldable pub md_block_to_lang : Text → Language
unfolding text_eq
md_block_to_lang lang =
    if text_eq lang (codes "go") then golang else if text_eq lang (codes "rust") then rust else lang

-- The code from a place on up to the next marker, and the place behind the marker.
unfoldable pub code_from : Text → ℕ → Language → Text × Language × ℤ
unfolding index_text
code_from resp start lang = elim (index_text markdown_code_block (drop start resp)) [
  | none ↦ ([], [], negsuc 0)
  | some i ↦ (take i (drop start resp), lang, pos (start + i + 3))
]

abbrev pub line_length : Text → ℕ
line_length s = elim (index_byte b'\n' s) [ some i ↦ i | none ↦ length s ]

-- ExtractMDCodes.
unfoldable pub extract_md_codes : Text → Text → Text × Language × ℤ
unfolding code_from md_block_to_lang index_text index_byte
extract_md_codes resp lang = elim (index_text (markdown_code_block ++ lang) resp) [
  | some i ↦ code_from resp (i + 3 + length lang) (md_block_to_lang lang)
  | none ↦ elim (index_text markdown_code_block resp) [
    | some i ↦
        let start = i + 3 in
        let line = line_length (drop start resp) in
        code_from resp (start + line) (md_block_to_lang (take line (drop start resp)))
    | none ↦ ([], [], pos 0)
  ]
]

abbrev pub open_tag : Text → Text
open_tag tag = b'<' ∷ (tag ++ b'>' ∷ [])

abbrev pub close_tag : Text → Text
close_tag tag = b'<' ∷ b'/' ∷ (tag ++ b'>' ∷ [])

-- ExtractXMLBlock, with `none` for the place -1. The closing tag is behind the opening one, or the slice
-- would panic, which needs a '<' in the tag.
abbrev pub block_at : Text → Text → ℕ → Option ℕ → Option (Text × ℕ)
block_at text tag i none = none
block_at text tag i (some j) =
    some (take (j - (length tag + 2)) (drop (i + length tag + 2) text), i + j + length tag + 3)

abbrev pub block_behind : Text → Text → Option ℕ → Option (Text × ℕ)
block_behind text tag none = none
block_behind text tag (some i) = block_at text tag i (index_text (close_tag tag) (drop i text))

unfoldable pub extract_xml_block : Text → Text → Option (Text × ℕ)
unfolding index_text
extract_xml_block text tag = block_behind text tag (index_text (open_tag tag) text)

-- IterateXMLBlock with a hook that has a state, in a number of rounds; `none` says that they were not
-- enough.
module _ {ℓ} {S : Type ℓ} (hook : S → Text → S × Bool) (tag : Text) where
  abbrev pub go_on : S × Bool → (S → Option S) → Option S
  go_on (s, true) next = next s
  go_on (s, false) next = some s

  abbrev pub visit : Option (Text × ℕ) → S → (ℕ → S → Option S) → Option S
  visit none s next = some s
  visit (some (block, end)) s next = go_on (hook s block) (next end)

  unfoldable pub iterate_rounds : ℕ → Text → S → Option S
  unfolding extract_xml_block
  iterate_rounds zero text s = none
  iterate_rounds (suc n) text s =
      let more : ℕ → S → Option S = λ end. iterate_rounds n (drop end text) in
      if text_eq text [] then some s else visit (extract_xml_block text tag) s more

  -- Every block takes a byte at least.
  unfoldable pub iterate_xml_block : Text → S → Option S
  unfolding iterate_rounds
  iterate_xml_block text s = iterate_rounds (suc (length text)) text s
