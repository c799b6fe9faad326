-- ===== src/Util/Marker/Ends.antt =====
-- IterateXMLBlock of internal/utils/marker.go ends on every text.
use abcoder.Base.{
  ℕ, zero, suc, ◌+◌, ◌<◌, ◌≡◌, refl, Bool, true, false, [], ◌∷◌, Option, none, some, arith,
  if◌then◌else◌, length, drop, length-drop,
}
use abcoder.Base.Text.{Text, text_eq}
use abcoder.Base.Search.{index_text}
use abcoder.Util.Marker.{
  close_tag, open_tag, block_at, block_behind, extract_xml_block, go_on, visit, iterate_rounds,
  iterate_xml_block,
}

block_at-end :
    (text tag : Text) (i : ℕ) (o : Option ℕ) (block : Text) (end : ℕ)
    → block_at text tag i o ≡ some (block, end)
    → 0 < end
block_at-end text tag i none block end h = absurd (cc)
block_at-end text tag i (some j) block end h =
    let same : i + j + length tag + 3 ≡ end = cc in omega (arith, same)

block_behind-end :
    (text tag : Text) (o : Option ℕ) (block : Text) (end : ℕ)
    → block_behind text tag o ≡ some (block, end)
    → 0 < end
block_behind-end text tag none block end h = absurd (cc)
block_behind-end text tag (some i) block end h =
    block_at-end text tag i (index_text (close_tag tag) (drop i text)) block end h

-- Every block ends behind the start of the text.
extract_xml_block-end :
    (text tag block : Text) (end : ℕ) → extract_xml_block text tag ≡ some (block, end) → 0 < end
unfolding extract_xml_block
extract_xml_block-end text tag block end h =
    block_behind-end text tag (index_text (open_tag tag) text) block end h

module _ {ℓ} {S : Type ℓ} (hook : S → Text → S × Bool) (tag : Text) where
  go_on-some :
      (x : S × Bool) (next : S → Option S)
      → ((s : S) → (s' : S) × (next s ≡ some s'))
      → (s' : S) × (go_on hook tag x next ≡ some s')
  go_on-some (s, true) next h = h s
  go_on-some (s, false) next h = (s, refl)

  visit-some :
      (o : Option (Text × ℕ)) (s : S) (next : ℕ → S → Option S)
      → ((block : Text) (end : ℕ)
          → o ≡ some (block, end)
          → (s : S) → (s' : S) × (next end s ≡ some s'))
      → (s' : S) × (visit hook tag o s next ≡ some s')
  visit-some none s next h = (s, refl)
  visit-some (some (block, end)) s next h = go_on-some (hook s block) (next end) (h block end refl)

  if-some :
      (b : Bool) (s : S) (o : Option S)
      → (b ≡ false → (s' : S) × (o ≡ some s'))
      → (s' : S) × ((if b then some s else o) ≡ some s')
  if-some true s o h = (s, refl)
  if-some false s o h = h refl

  shorter :
      (text : Text) (end n : ℕ)
      → text_eq text [] ≡ false
      → 0 < end
      → length text < suc n
      → length (drop end text) < n
  unfolding text_eq
  shorter [] end n h pos_end enough = absurd (cc)
  shorter (c ∷ text) end n h pos_end enough = omega (arith, length-drop end (c ∷ text))

  iterate_rounds-some :
      (n : ℕ) (text : Text) (s : S)
      → length text < n
      → (s' : S) × (iterate_rounds hook tag n text s ≡ some s')
  unfolding iterate_rounds
  iterate_rounds-some zero text s enough = absurd (omega arith)
  iterate_rounds-some (suc n) text s enough =
      let more : ℕ → S → Option S = λ end. iterate_rounds hook tag n (drop end text) in
      if-some (text_eq text []) s (visit hook tag (extract_xml_block text tag) s more) λ some_text.
        visit-some (extract_xml_block text tag) s more λ block end found s.
          iterate_rounds-some n (drop end text) s
            (shorter text end n some_text (extract_xml_block-end text tag block end found) enough)

  -- IterateXMLBlock ends on every text and with every hook, after at most a round for each byte and one.
  pub iterate_xml_block-total :
      (text : Text) (s : S) → (s' : S) × (iterate_xml_block hook tag text s ≡ some s')
  unfolding iterate_xml_block
  iterate_xml_block-total text s = iterate_rounds-some (suc (length text)) text s (omega arith)
