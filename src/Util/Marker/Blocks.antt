-- ===== src/Util/Marker/Blocks.antt =====
-- What internal/utils/marker.go finds in a text that was made of blocks: the blocks, in their order.
use abcoder.Base.{
  ℕ, zero, suc, ◌+◌, ◌-◌, ◌≤◌, ◌<◌, ◌≡◌, refl, ap, sym, ◌∙◌, Bool, true, false, List, [], ◌∷◌, ◌++◌,
  Option, none, some, arith, if◌then◌else◌, length, take, drop, append_assoc, length-append,
}
use abcoder.Base.Text.{Text, text_eq, All, Lacks}
use abcoder.Base.Slices.{take-length-append, drop-length-append}
use abcoder.Base.Search.{starts_with, index_text, later, starts_with-append}
use abcoder.Util.Marker.{
  open_tag, close_tag, block_at, block_behind, extract_xml_block, go_on, visit, iterate_rounds,
  iterate_xml_block,
}

-- A text that was made of gaps and blocks.
unfoldable pub marked : Text → List (Text × Text) → Text → Text
marked tag [] end = end
marked tag ((gap, block) ∷ more) end =
    gap ++ (open_tag tag ++ (block ++ (close_tag tag ++ marked tag more end)))

-- What starts with a byte that the text before lacks is found behind that text.
index_text-Lacks :
    (c : ℕ) (sep s t : Text)
    → Lacks c s
    → starts_with (c ∷ sep) t ≡ true
    → index_text (c ∷ sep) (s ++ t) ≡ some (length s)
unfolding index_text starts_with
index_text-Lacks c sep [] [] lacks h = absurd (cc)
index_text-Lacks c sep [] (d ∷ t) lacks h = ground arith
index_text-Lacks c sep (d ∷ s) t (other, lacks) h =
    ground (arith, index_text-Lacks c sep s t lacks h)

Lacks-append : (c : ℕ) (s t : Text) → Lacks c s → Lacks c t → Lacks c (s ++ t)
Lacks-append c [] t l m = m
Lacks-append c (d ∷ s) t (e, l) m = (e, Lacks-append c s t l m)

-- an opening tag is no closing tag
open_is_no_close :
    (tag rest : Text)
    → Lacks b'/' tag
    → index_text (close_tag tag) (open_tag tag ++ rest)
      ≡ later (index_text (close_tag tag) ((tag ++ b'>' ∷ []) ++ rest))
unfolding index_text starts_with
open_is_no_close [] rest slash = refl
open_is_no_close (c ∷ tag) rest (other, slash) = ground arith

module _ (tag : Text) (no_less : Lacks b'<' tag) (no_slash : Lacks b'/' tag) where
  find_close :
      (block rest : Text)
      → Lacks b'<' block
      → index_text (close_tag tag) (open_tag tag ++ (block ++ (close_tag tag ++ rest)))
        ≡ some (suc (length ((tag ++ b'>' ∷ []) ++ block)))
  find_close block rest lacks =
      let inner = (tag ++ b'>' ∷ []) ++ block in
      let inner_lacks =
        Lacks-append b'<' (tag ++ b'>' ∷ []) block
          (Lacks-append b'<' tag (b'>' ∷ []) no_less ((λ e. omega arith), tt)) lacks in
      open_is_no_close tag (block ++ (close_tag tag ++ rest)) no_slash
      ∙ ap (λ t. later (index_text (close_tag tag) t))
          (sym (append_assoc (tag ++ b'>' ∷ []) block (close_tag tag ++ rest)))
      ∙ ap later (
          index_text-Lacks b'<' (b'/' ∷ (tag ++ b'>' ∷ [])) inner (close_tag tag ++ rest)
            inner_lacks (starts_with-append (close_tag tag) rest))

  abbrev end_of : Text → Text → ℕ
  end_of gap block = length gap + suc (length ((tag ++ b'>' ∷ []) ++ block)) + length tag + 3

  extract_xml_block-tagged :
      (gap block rest : Text)
      → Lacks b'<' gap
      → Lacks b'<' block
      → extract_xml_block (gap ++ (open_tag tag ++ (block ++ (close_tag tag ++ rest)))) tag
        ≡ some (block, end_of gap block)
  unfolding extract_xml_block
  extract_xml_block-tagged gap block rest gap_lacks lacks =
      let behind = open_tag tag ++ (block ++ (close_tag tag ++ rest)) in
      let text = gap ++ behind in
      let size : suc (length ((tag ++ b'>' ∷ []) ++ block)) - (length tag + 2) ≡ length block =
        omega (arith, length-append (tag ++ b'>' ∷ []) block, length-append tag (b'>' ∷ [])) in
      let skip : length gap + length tag + 2 ≡ length (gap ++ open_tag tag) =
        omega (arith, length-append gap (open_tag tag), length-append tag (b'>' ∷ [])) in
      let dropped : drop (length gap + length tag + 2) text ≡ block ++ (close_tag tag ++ rest) =
        ap (λ n. drop n text) skip
        ∙ ap (drop (length (gap ++ open_tag tag)))
            (sym (append_assoc gap (open_tag tag) (block ++ (close_tag tag ++ rest))))
        ∙ drop-length-append (gap ++ open_tag tag) (block ++ (close_tag tag ++ rest)) in
      ap (block_behind text tag) (
        index_text-Lacks b'<' (tag ++ b'>' ∷ []) gap behind gap_lacks
          (starts_with-append (open_tag tag) (block ++ (close_tag tag ++ rest))))
      ∙ ap (λ t. block_at text tag (length gap) (index_text (close_tag tag) t))
          (drop-length-append gap behind)
      ∙ ap (block_at text tag (length gap)) (find_close block rest lacks)
      ∙ ap (λ t. some (t, end_of gap block))
          (ap (λ n. take n (drop (length gap + length tag + 2) text)) size
            ∙ ap (take (length block)) dropped
            ∙ take-length-append block (close_tag tag ++ rest))

  drop-marked :
      (gap block rest : Text)
      → drop (end_of gap block) (gap ++ (open_tag tag ++ (block ++ (close_tag tag ++ rest)))) ≡ rest
  drop-marked gap block rest =
      let front = gap ++ (open_tag tag ++ (block ++ close_tag tag)) in
      let whole : gap ++ (open_tag tag ++ (block ++ (close_tag tag ++ rest))) ≡ front ++ rest =
        simp append_assoc in
      let size : end_of gap block ≡ length front = omega (
        arith,
        length-append gap (open_tag tag ++ (block ++ close_tag tag)),
        length-append (open_tag tag) (block ++ close_tag tag),
        length-append block (close_tag tag),
        length-append tag (b'>' ∷ []),
        length-append (tag ++ b'>' ∷ []) block,
      ) in
      ap (λ n. drop n (gap ++ (open_tag tag ++ (block ++ (close_tag tag ++ rest))))) size
      ∙ ap (drop (length front)) whole
      ∙ drop-length-append front rest

  not_empty : (gap rest : Text) → text_eq (gap ++ (open_tag tag ++ rest)) [] ≡ false
  unfolding text_eq
  not_empty [] rest = refl
  not_empty (c ∷ gap) rest = refl

index_text-none : (c : ℕ) (sep s : Text) → Lacks c s → index_text (c ∷ sep) s ≡ none
unfolding index_text starts_with
index_text-none c sep [] lacks = refl
index_text-none c sep (d ∷ s) (other, lacks) = ground (arith, index_text-none c sep s lacks)

extract_xml_block-none : (tag s : Text) → Lacks b'<' s → extract_xml_block s tag ≡ none
unfolding extract_xml_block
extract_xml_block-none tag s lacks =
    ap (block_behind s tag) (index_text-none b'<' (tag ++ b'>' ∷ []) s lacks)

abbrev pub AreText : List (Text × Text) → Type 0
AreText = All (λ x. Lacks b'<' x.0 × Lacks b'<' x.1)

module _ {ℓ} {S : Type ℓ} (hook : S → Text → S × Bool) (tag : Text) where
  -- The hook on every block, up to the first that it refuses.
  abbrev if_more : S × Bool → (S → S) → S
  if_more (s, true) next = next s
  if_more (s, false) next = s

  unfoldable pub visit_all : List (Text × Text) → S → S
  visit_all [] s = s
  visit_all ((gap, block) ∷ more) s = if_more (hook s block) (visit_all more)

  if_more-some :
      (x : S × Bool) (f : S → Option S) (g : S → S)
      → ((s : S) → f s ≡ some (g s))
      → go_on hook tag x f ≡ some (if_more x g)
  if_more-some (s, true) f g same = same s
  if_more-some (s, false) f g same = refl

  same_branches : (b : Bool) (o : Option S) → (if b then o else o) ≡ o
  same_branches true o = refl
  same_branches false o = refl

  iterate_rounds-plain :
      (n : ℕ) (text : Text) (s : S)
      → Lacks b'<' text
      → iterate_rounds hook tag (suc n) text s ≡ some s
  unfolding iterate_rounds
  iterate_rounds-plain n text s lacks =
      let more : ℕ → S → Option S = λ end. iterate_rounds hook tag n (drop end text) in
      ap (λ o. if text_eq text [] then some s else visit hook tag o s more)
        (extract_xml_block-none tag text lacks)
      ∙ same_branches (text_eq text []) (some s)

  iterate_rounds-visit :
      (n : ℕ) (text : Text) (s : S) (block : Text) (end : ℕ)
      → text_eq text [] ≡ false
      → extract_xml_block text tag ≡ some (block, end)
      → iterate_rounds hook tag (suc n) text s
        ≡ go_on hook tag (hook s block) (iterate_rounds hook tag n (drop end text))
  unfolding iterate_rounds
  iterate_rounds-visit n text s block end some_text found =
      let more : ℕ → S → Option S = λ end. iterate_rounds hook tag n (drop end text) in
      ap (λ b. if b then some s else visit hook tag (extract_xml_block text tag) s more) some_text
      ∙ ap (λ o. visit hook tag o s more) found

  iterate_rounds-marked :
      (n : ℕ) (xs : List (Text × Text)) (end : Text) (s : S)
      → Lacks b'<' tag
      → Lacks b'/' tag
      → AreText xs
      → Lacks b'<' end
      → length xs < n
      → iterate_rounds hook tag n (marked tag xs end) s ≡ some (visit_all xs s)
  unfolding marked visit_all
  iterate_rounds-marked zero xs end s l m t e enough = absurd (omega arith)
  iterate_rounds-marked (suc n) [] end s l m t e enough = iterate_rounds-plain n end s e
  iterate_rounds-marked (suc n) ((gap, block) ∷ xs) end s l m ((g, b), t) e enough =
      let rest = marked tag xs end in
      let text = gap ++ (open_tag tag ++ (block ++ (close_tag tag ++ rest))) in
      iterate_rounds-visit n text s block (end_of tag l m gap block)
        (not_empty tag l m gap (block ++ (close_tag tag ++ rest)))
        (extract_xml_block-tagged tag l m gap block rest g b)
      ∙ if_more-some (hook s block)
          (iterate_rounds hook tag n (drop (end_of tag l m gap block) text)) (visit_all xs)
          λ s.
            ap (λ t. iterate_rounds hook tag n t s) (drop-marked tag l m gap block rest)
            ∙ iterate_rounds-marked n xs end s l m t e (omega arith)

  length-marked : (xs : List (Text × Text)) (end : Text) → length xs ≤ length (marked tag xs end)
  unfolding marked
  length-marked [] end = omega arith
  length-marked ((gap, block) ∷ xs) end = omega (
    arith,
    length-marked xs end,
    length-append gap (open_tag tag ++ (block ++ (close_tag tag ++ marked tag xs end))),
    length-append (open_tag tag) (block ++ (close_tag tag ++ marked tag xs end)),
    length-append block (close_tag tag ++ marked tag xs end),
    length-append (close_tag tag) (marked tag xs end),
  )

  -- In a text of gaps and blocks in tags, where neither holds a '<' and the tag holds no '<' and no '/',
  -- IterateXMLBlock ends, and its hook has had the blocks in their order, up to and with the first that
  -- it refused.
  pub iterate_xml_block-marked :
      (xs : List (Text × Text)) (end : Text) (s : S)
      → Lacks b'<' tag
      → Lacks b'/' tag
      → AreText xs
      → Lacks b'<' end
      → iterate_xml_block hook tag (marked tag xs end) s ≡ some (visit_all xs s)
  unfolding iterate_xml_block
  iterate_xml_block-marked xs end s l m t e =
      iterate_rounds-marked (suc (length (marked tag xs end))) xs end s l m t e
        (omega (arith, length-marked xs end))
