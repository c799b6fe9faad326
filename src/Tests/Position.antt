-- ===== src/Tests/Position.antt =====
-- Tests of positions and offsets.
use abcoder.Base.{ℕ, ◌≡◌, refl, true, [], ◌∷◌, arith}
use abcoder.Base.Int.{pos}
use abcoder.Lsp.Position.{Position, Range, position_less, position_offset, chunk_head}
use abcoder.Lsp.Offset.{position_at, position_offset-position_at, chunk_head-position_at}

abbrev at_line : ℕ → ℕ → Position
at_line l c = record { line = pos l; character = pos c }

one_two : position_less (at_line 0 3) (at_line 1 0) ≡ true
unfolding position_less
one_two = refl

two_three : position_less (at_line 1 0) (at_line 1 5) ≡ true
unfolding position_less
two_three = refl

abbrev lines : Range
lines = record { start = at_line 0 3; end = at_line 1 0 }

position_offset-position_at_example :
    position_offset (b'a' ∷ b'\n' ∷ b'b' ∷ []) (position_at (b'a' ∷ b'\n' ∷ b'b' ∷ []) 3) ≡ pos 3
position_offset-position_at_example =
    position_offset-position_at (b'a' ∷ b'\n' ∷ b'b' ∷ []) 3 (omega arith)

chunk_head-position_at_example :
    chunk_head
      (b'a' ∷ b'\n' ∷ b'b' ∷ [])
      (record { line = pos 0; character = pos 0 })
      (position_at (b'a' ∷ b'\n' ∷ b'b' ∷ []) 2)
    ≡ b'a' ∷ b'\n' ∷ []
chunk_head-position_at_example = chunk_head-position_at (b'a' ∷ b'\n' ∷ b'b' ∷ []) 2 (omega arith)
