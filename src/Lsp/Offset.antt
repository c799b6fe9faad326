-- ===== src/Lsp/Offset.antt =====
-- The offset of the position that a walk through a text reaches.
use abcoder.Base.{
  ℕ, zero, suc, ◌+◌, ◌-◌, ◌≤◌, ◌<◌, ◌≡◌, refl, [], ◌∷◌, some, ◌==◌, if◌then◌else◌, length,
  get_elem?, take, arith, Bool-cases, inl, inr,
}
use abcoder.Base.Int.{pos, ◌-ℤ◌, int_laws, eq_of_parts}
use abcoder.Base.Text.{Text}
use abcoder.Lsp.Position.{
  Position, line_starts, count_lines, offset_on, line_at, relative_position_with_lines,
  get_distance, head_to, chunk_head, position_offset,
}

-- The line and the character that k bytes lead to, on a line of which c characters are behind.
unfoldable pub walk : ℕ → Text → ℕ → ℕ × ℕ
walk c s zero = (0, c)
walk c [] (suc k) = (0, c)
walk c (b ∷ s) (suc k) =
    let same = walk (suc c) s k in
    let next = walk 0 s k in if b == b'\n' then (suc next.0, next.1) else same

unfoldable pub position_at : Text → ℕ → Position
unfolding walk
position_at text k = record { line = pos (walk 0 text k).0; character = pos (walk 0 text k).1 }

walk-line_starts :
    (c : ℕ) (i : ℕ) (s : Text) (k : ℕ)
    → c ≤ i
    → k ≤ length s
    → (o : ℕ) × (get_elem? (pos (i - c) ∷ line_starts i s) (walk c s k).0 ≡ some (pos o))
      × (o + (walk c s k).1 ≡ i + k)
unfolding walk line_starts
walk-line_starts c i s zero hc hk = (i - c, refl, omega arith)
walk-line_starts c i [] (suc k) hc hk = elim hk [ ]
walk-line_starts c i (b ∷ s) (suc k) hc hk = elim (Bool-cases (b == b'\n')) [
  | inl is ↦
      let (o, at, sum) = walk-line_starts 0 (suc i) s k (omega arith) (omega arith) in
      (o, ground (arith, at), ground (arith, sum))
  | inr other ↦
      let (o, at, sum) = walk-line_starts (suc c) (suc i) s k (omega arith) (omega arith) in
      (o, ground (arith, at), ground (arith, sum))
]

-- both callers look the line up in the text's table, from line 0 and character 0
offset_on-walk :
    (text : Text) (k : ℕ)
    → k ≤ length text
    → offset_on
        (line_at (count_lines text) (pos (walk 0 text k).0 -ℤ pos 0))
        (pos (walk 0 text k).1)
        (pos 0)
      ≡ pos k
unfolding count_lines line_at offset_on
offset_on-walk text k h =
    let (o, at, sum) = walk-line_starts 0 0 text k (omega arith) h in
    let same : pos (walk 0 text k).0 -ℤ pos 0 ≡ pos (walk 0 text k).0 =
      eq_of_parts _ _ (omega int_laws) in
    rw (same, at) (eq_of_parts _ _ (omega (int_laws, sum)))

-- The position that k bytes of a text lead to, by counting its newlines and the bytes behind the
-- last, has the offset k in the text, up to the text's end.
pub position_offset-position_at :
    (text : Text) (k : ℕ) → k ≤ length text → position_offset text (position_at text k) ≡ pos k
unfolding position_offset relative_position_with_lines position_at
position_offset-position_at text k h = ground (arith, offset_on-walk text k h)

-- For a text that starts at line 0 and character 0, ChunkHead gives what stands before the
-- position that k bytes lead to, for k below the text's length.
pub chunk_head-position_at :
    (text : Text) (k : ℕ)
    → k < length text
    → chunk_head text (record { line = pos 0; character = pos 0 }) (position_at text k)
      ≡ take k text
unfolding chunk_head get_distance position_at head_to
chunk_head-position_at text k h = rw (offset_on-walk text k (omega arith)) (ground arith)
