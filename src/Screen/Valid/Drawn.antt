-- ===== src/Screen/Valid/Drawn.antt =====
-- The loop of `refresh` (static/term.js), on a valid screen without gaps.
use genie_tangle.Screen.Valid.Defs.{IsWhole, IsFull, IsWide, IsValid}
use genie_tangle.Screen.Buffer.{whole_cells, rows_are_whole, hole, Screen, Row, row_is_whole, cell}
use genie_tangle.Prelude.{
  ◌≤◌, ℕ, [], ◌∷◌, ◌<◌, get_elem?-get_or, length, refl, suc, ◌+◌, ◌≡◌, All-get_elem?, zero, lt→ltb,
  arith, get_or, true,
}

whole_cells-IsWhole :
    (n : ℕ) (line : Row) → n ≤ length line → IsWhole line → whole_cells n line ≡ true
unfolding whole_cells
whole_cells-IsWhole zero line h w = refl
whole_cells-IsWhole (suc n) [] h w = absurd (omega (arith, h))
whole_cells-IsWhole (suc n) (hole ∷ line) h w = absurd (w.0)
whole_cells-IsWhole (suc n) (cell a c ∷ line) h w =
    whole_cells-IsWhole n line (omega (arith, h)) w.1

row_is_whole-IsFull :
    (y : ℕ) (s : Screen) → IsValid s → IsFull s → y < s.rows → row_is_whole y s ≡ true
unfolding row_is_whole
row_is_whole-IsFull y s v u h =
    let e = get_elem?-get_or [] s.lines (y + s.ydisp) (omega (arith, v.full, v.disp_in)) in
    let line = get_or s.lines (y + s.ydisp) [] in
    let w = All-get_elem? IsWhole s.lines (y + s.ydisp) u e in
    let n = All-get_elem? (IsWide s.cols) s.lines (y + s.ydisp) v.wide e in
    rw (lt→ltb y s.rows h, whole_cells-IsWhole s.cols line n w) refl

-- No row of the screen makes it throw.
pub rows_are_whole-IsFull :
    (n y : ℕ) (s : Screen)
    → IsValid s
    → IsFull s
    → (0 < n → y + n ≤ s.rows)
    → rows_are_whole n y s ≡ true
unfolding rows_are_whole
rows_are_whole-IsFull zero y s v u h = refl
rows_are_whole-IsFull (suc n) y s v u h =
    let k : y + suc n ≤ s.rows = h (omega arith) in
    rw
      (
        row_is_whole-IsFull y s v u (omega arith),
        rows_are_whole-IsFull n (suc y) s v u (λ p. omega arith),
      )
      refl
