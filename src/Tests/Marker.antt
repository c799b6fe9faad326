-- ===== src/Tests/Marker.antt =====
-- Runs of the block readers on small texts.
use abcoder.Base.{◌≡◌, refl, Bool, true, List, [], ◌∷◌, some, arith}
use abcoder.Base.Int.{pos}
use abcoder.Base.Text.{Text, codes, text_eq}
use abcoder.Uniast.Language.{golang}
use abcoder.Util.Marker.{extract_md_codes, iterate_xml_block}
use abcoder.Util.Marker.Blocks.{marked, AreText, visit_all, iterate_xml_block-marked}
use abcoder.Util.Marker.Ends.{iterate_xml_block-total}

-- A hook that keeps the blocks, the last one first.
abbrev keep : List Text → Text → List Text × Bool
keep blocks b = (b ∷ blocks, true)

abbrev two_blocks : List (Text × Text)
two_blocks = (codes "x", codes "a") ∷ ([], codes "b") ∷ []

two_blocks-AreText : AreText two_blocks
two_blocks-AreText =
    ((((λ e. omega arith), tt), ((λ e. omega arith), tt)), ((tt, ((λ e. omega arith), tt)), tt))

marked_run : marked (codes "t") two_blocks [] ≡ codes "x<t>a</t><t>b</t>"
unfolding marked
marked_run = refl

iterate_xml_block-marked_example :
    iterate_xml_block keep (codes "t") (marked (codes "t") two_blocks []) []
    ≡ some (codes "b" ∷ codes "a" ∷ [])
unfolding visit_all
iterate_xml_block-marked_example =
    iterate_xml_block-marked keep (codes "t") two_blocks [] [] ((λ e. omega arith), tt)
      ((λ e. omega arith), tt) two_blocks-AreText tt

iterate_xml_block-total_example :
    (s : List Text) × (iterate_xml_block keep (codes "t") (codes "<t>a</t><t>") [] ≡ some s)
iterate_xml_block-total_example = iterate_xml_block-total keep (codes "t") (codes "<t>a</t><t>") []

extract_md_codes_run :
    extract_md_codes (codes "a```go\nf```") (codes "go") ≡ (codes "\nf", golang, pos 11)
unfolding extract_md_codes text_eq
extract_md_codes_run = refl
