-- ===== src/Lsp/Range.antt =====
-- The order of positions, and the ranges that include one another.
use abcoder.Base.{◌≡◌, true, false, ◌&&◌, not, arith}
use abcoder.Lsp.Position.{Position, Range, eq_ℤ, position_less, is_position_in_range}

-- A position before another one is before what the other is before, and neither of the later two
-- is before the first.
pub position_less_trans :
    (p q r : Position)
    → position_less p q ≡ true
    → position_less q r ≡ true
    → (position_less p r ≡ true) × (position_less q p ≡ false) × (position_less r p ≡ false)
unfolding position_less eq_ℤ
position_less_trans p q r h k = (ground arith, ground arith, ground arith)

-- For a range that starts before its end, a position is in it, closed, exactly where it is not
-- before the start and the end is not before it; and in it, open, where it is not before the start
-- and is before the end.
pub is_position_in_range-position_less :
    (p : Position) (r : Range)
    → position_less r.start r.end ≡ true
    → is_position_in_range p r true ≡ (not (position_less p r.start) && not (position_less r.end p))
      × is_position_in_range p r false ≡ (not (position_less p r.start) && position_less p r.end)
unfolding position_less is_position_in_range eq_ℤ
is_position_in_range-position_less p r h = (ground arith, ground arith)
