-- ===== src/Screen/Cells/Printed.antt =====
-- `print` on the cells.
use genie_tangle.Screen.Valid.Rows.{wrap-Kept, wrap-x}
use genie_tangle.Screen.Valid.Lasting.{assign-Lasts}
use genie_tangle.Screen.Cells.Erased.{range_leaves}
use genie_tangle.Screen.Chars.{print, wrap}
use genie_tangle.Screen.Cells.Defs.{cell_at, with_line-RowWritten, RowWritten, row_at}
use genie_tangle.Screen.Buffer.{Row, cell, with_line, hole, Cell, Screen}
use genie_tangle.Prelude.{
  assign, ◌≡◌, Ends, ◌==◌, ◌+◌, if◌then◌else◌, ℕ, ◌&&◌, if◌then◌else◌, arith, Ends-bind,
  get_or-assign, inr, if◌then◌else◌, Bool-cases, true, inl, ◌∙◌,
}
use genie_tangle.Screen.Valid.{IsValid}

-- The row, and the cell, that a character goes to.
place_cells :
    (s t : Screen) (c : Cell)
    → RowWritten s s.y (assign hole (row_at s s.y) s.x c) t
    → (j k : ℕ) → cell_at t j k ≡ (if j == s.y && k == s.x then c else cell_at s j k)
place_cells s t c r j k = elim (Bool-cases (j == s.y)) [
  | inl e ↦ rw (same_row e, r.written, get_or-assign hole (row_at s s.y) s.x k c) (ground arith)
  | inr e ↦ rw (r.others j e) (ground arith)
]
  where
    same_row : (j == s.y) ≡ true → j ≡ s.y
    same_row e = ground arith

-- The cell of the cursor is `c`, every other cell is as it was, and so are the attributes, and the
-- cursor is one column further.
abbrev pub CellWritten : Screen → Cell → Screen → Type 0
CellWritten s c t =
    (t.x ≡ s.x + 1)
    × (t.y ≡ s.y)
    × (t.cur_attr ≡ s.cur_attr)
    × ((j k : ℕ) → cell_at t j k ≡ (if j == s.y && k == s.x then c else cell_at s j k))

-- A character is printed on a valid screen without a fault: after the wrap that is due where the
-- cursor stands right of the last column, the cell of the cursor holds the character in the
-- current attributes, every other cell is as it was, and so are the attributes, and the cursor is
-- one column further.
pub print-cells :
    (ch : ℕ) (s : Screen)
    → IsValid s
    → Ends (CellWritten (wrap s) (cell (wrap s).cur_attr ch)) (print ch s)
unfolding print
print-cells ch s v =
    let w = wrap s in
    let f : Row → Row = λ line. assign hole line w.x (cell w.cur_attr ch) in
    let k = wrap-Kept s v in
    Ends-bind (RowWritten w w.y (f (row_at w w.y))) _ (with_line (w.y + w.ybase) f w) _
      (with_line-RowWritten (w.y + w.ybase) w.y f w k.valid k.valid.row_in (omega arith) (λ line i.
        assign-Lasts w.cols line w.x (cell w.cur_attr ch) tt (omega (arith, wrap-x s v)) i))
      (λ t r.
        let (lines', base', x', y', attr') = range_leaves w.y (record t { x = w.x + 1 }) in
        (
          x',
          y' ∙ r.same_y,
          attr' ∙ r.same_attr,
          λ j i. rw (lines', base') (place_cells w t (cell w.cur_attr ch) r j i),
        ))
