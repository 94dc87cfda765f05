-- ===== src/Screen/View/Rounds.antt =====
-- `insertLines`, `deleteLines`, `scrollUp` and `scrollDown` on the rows of the screen.
use genie_tangle.Screen.Scroll.{scroll_up, scroll_up_lines, scroll_down, scroll_down_lines}
use genie_tangle.Screen.Valid.Scrolls.{erase-insert-Kept, insert-erase-Kept}
use genie_tangle.Screen.Lines.{insert_lines_at, delete_lines_at, insert_lines, delete_lines}
use genie_tangle.Screen.Valid.{IsValid, blank_line-IsWide, blank_line-IsWhole}
use genie_tangle.Screen.Buffer.{Row, Screen, blank_line, update_range, at_least_one, first}
use genie_tangle.Screen.View.Defs.{
  rows_up_once, visible, rows_down_once, repeated, history, region_up, region_down,
}
use genie_tangle.Prelude.{
  ◌≡◌, ap, refl, ◌<◌, ℕ, drop-insert_at, true, zero, take-insert_at, List, take-erase_at, ◌∙◌,
  insert_at, arith, drop, take, suc, length-erase_at, ◌+◌, drop-erase_at, erase_at, false,
}

-- One round of `insertLines`, on the rows and on the scrollback.
insert_line_round :
    (s : Screen)
    → IsValid s
    → let lines' =
        erase_at
          (insert_at s.lines (s.y + s.ybase) (blank_line true s))
          (s.ybase + s.scroll_bottom + 1) in
      (drop s.ybase lines' ≡ rows_down_once s.y s.scroll_bottom (blank_line true s) (visible s))
      × (take s.ybase lines' ≡ history s)
insert_line_round s v = (
  rw (e, e')
      (drop-erase_at s.ybase _ (suc s.scroll_bottom)
        ∙ ap (λ (rows : List Row). erase_at rows (suc s.scroll_bottom))
            (drop-insert_at s.ybase s.lines s.y (blank_line true s)
              (omega (arith, v.full, v.row_in)))),
  rw (e, e')
      (take-erase_at s.ybase _ (suc s.scroll_bottom)
        ∙ take-insert_at s.ybase s.lines s.y (blank_line true s) (omega (arith, v.full))),
)
  where
    e : s.y + s.ybase ≡ s.ybase + s.y
    e = omega arith

    e' : s.ybase + s.scroll_bottom + 1 ≡ s.ybase + suc s.scroll_bottom
    e' = omega arith

delete_line_round :
    (s : Screen)
    → IsValid s
    → let lines' =
        erase_at
          (insert_at s.lines (s.ybase + s.scroll_bottom + 1) (blank_line true s))
          (s.y + s.ybase) in
      (drop s.ybase lines' ≡ rows_up_once s.y s.scroll_bottom (blank_line true s) (visible s))
      × (take s.ybase lines' ≡ history s)
delete_line_round s v = (
  rw (e, e')
      (drop-erase_at s.ybase _ s.y
        ∙ ap (λ (rows : List Row). erase_at rows s.y)
            (drop-insert_at s.ybase s.lines (suc s.scroll_bottom) (blank_line true s)
              (omega (arith, v.full, v.region_in)))),
  rw (e, e')
      (take-erase_at s.ybase _ s.y
        ∙ take-insert_at s.ybase s.lines (suc s.scroll_bottom) (blank_line true s)
            (omega (arith, v.full))),
)
  where
    e : s.y + s.ybase ≡ s.ybase + s.y
    e = omega arith

    e' : s.ybase + s.scroll_bottom + 1 ≡ s.ybase + suc s.scroll_bottom
    e' = omega arith

-- A line goes out at the row `i`, then one comes in at the row `j`.
out_in_round :
    (s : Screen) (i j : ℕ) (line : Row)
    → IsValid s
    → i < s.rows
    → j < s.rows
    → let lines' = insert_at (erase_at s.lines (s.ybase + i)) (s.ybase + j) line in
      (drop s.ybase lines' ≡ insert_at (erase_at (visible s) i) j line)
      × (take s.ybase lines' ≡ history s)
out_in_round s i j line v hi hj =
    let n = length-erase_at s.lines (s.ybase + i) (omega (arith, v.full)) in
    (
      drop-insert_at s.ybase (erase_at s.lines (s.ybase + i)) j line (omega (arith, n, v.full))
          ∙ ap (λ (rows : List Row). insert_at rows j line) (drop-erase_at s.ybase s.lines i),
      take-insert_at s.ybase (erase_at s.lines (s.ybase + i)) j line (omega (arith, n, v.full))
          ∙ take-erase_at s.ybase s.lines i,
    )

-- The rows of the screen after `n` rounds of `f`, with the scrollback left as it is.
abbrev pub RowsAfter : ℕ → (List Row → List Row) → Screen → Screen → Type 0
RowsAfter n f s t = (visible t ≡ repeated n f (visible s)) × (history t ≡ history s)

-- One round, then the others.
RowsAfter-suc :
    (n : ℕ) (f : List Row → List Row) {xs ys zs hx hy hz : List Row}
    → (ys ≡ f xs) × (hy ≡ hx)
    → (zs ≡ repeated n f ys) × (hz ≡ hy)
    → (zs ≡ repeated n f (f xs)) × (hz ≡ hx)
RowsAfter-suc n f (e, e') (h, h') = (h ∙ ap (repeated n f) e, h' ∙ e')

insert_lines_at-rows :
    (n : ℕ) (s : Screen)
    → IsValid s
    → RowsAfter n (rows_down_once s.y s.scroll_bottom (blank_line true s)) s (insert_lines_at n s)
unfolding insert_lines_at blank_line
insert_lines_at-rows zero s v = (refl, refl)
insert_lines_at-rows (suc n) s v =
    let h =
      insert-erase-Kept v (blank_line true s) (blank_line-IsWide true s) (blank_line-IsWhole true s)
        (s.y + s.ybase) (s.ybase + s.scroll_bottom + 1) (omega (arith, v.region_in)) in
    RowsAfter-suc n _ (insert_line_round s v) (insert_lines_at-rows n _ h.valid)

delete_lines_at-rows :
    (n : ℕ) (s : Screen)
    → IsValid s
    → RowsAfter n (rows_up_once s.y s.scroll_bottom (blank_line true s)) s (delete_lines_at n s)
unfolding delete_lines_at blank_line
delete_lines_at-rows zero s v = (refl, refl)
delete_lines_at-rows (suc n) s v =
    let h =
      insert-erase-Kept v (blank_line true s) (blank_line-IsWide true s) (blank_line-IsWhole true s)
        (s.ybase + s.scroll_bottom + 1) (s.y + s.ybase) (omega (arith, v.row_in)) in
    RowsAfter-suc n _ (delete_line_round s v) (delete_lines_at-rows n _ h.valid)

scroll_up_lines-rows :
    (n : ℕ) (s : Screen)
    → IsValid s
    → RowsAfter n
        (region_up s.scroll_top s.scroll_bottom (blank_line false s))
        s
        (scroll_up_lines n s)
unfolding scroll_up_lines blank_line
scroll_up_lines-rows zero s v = (refl, refl)
scroll_up_lines-rows (suc n) s v =
    let h =
      erase-insert-Kept v (blank_line false s) (blank_line-IsWide false s)
        (blank_line-IsWhole false s) (s.ybase + s.scroll_top) (s.ybase + s.scroll_bottom)
        (omega (arith, v.region_in, v.region_order)) in
    RowsAfter-suc n _
      (out_in_round s s.scroll_top s.scroll_bottom (blank_line false s) v
        (omega (arith, v.region_in, v.region_order)) v.region_in)
      (scroll_up_lines-rows n _ h.valid)

scroll_down_lines-rows :
    (n : ℕ) (s : Screen)
    → IsValid s
    → RowsAfter n
        (region_down s.scroll_top s.scroll_bottom (blank_line false s))
        s
        (scroll_down_lines n s)
unfolding scroll_down_lines blank_line
scroll_down_lines-rows zero s v = (refl, refl)
scroll_down_lines-rows (suc n) s v =
    let h =
      erase-insert-Kept v (blank_line false s) (blank_line-IsWide false s)
        (blank_line-IsWhole false s) (s.ybase + s.scroll_bottom) (s.ybase + s.scroll_top)
        (omega (arith, v.region_in)) in
    RowsAfter-suc n _
      (out_in_round s s.scroll_bottom s.scroll_top (blank_line false s) v v.region_in
        (omega (arith, v.region_in, v.region_order)))
      (scroll_down_lines-rows n _ h.valid)

-- The repaint ranges leave the rows and the scrollback.
update_range-rows :
    (y y' : ℕ) (t : Screen) {xs hx : List Row}
    → (visible t ≡ xs) × (history t ≡ hx)
    → (visible (update_range y (update_range y' t)) ≡ xs)
      × (history (update_range y (update_range y' t)) ≡ hx)
unfolding update_range
update_range-rows y y' t h = ground arith

-- `insertLines` on a valid screen, with the parameter `p`, once for 0: `p` times a blank row in the
-- current attributes comes in at the cursor's row, and then the row just below the bottom of the
-- scroll region goes; the scrollback stays as it is.
pub visible-insert_lines :
    (ps : List ℕ) (s : Screen)
    → IsValid s
    → RowsAfter
        (at_least_one (first ps))
        (rows_down_once s.y s.scroll_bottom (blank_line true s))
        s
        (insert_lines ps s)
unfolding insert_lines
visible-insert_lines ps s v =
    update_range-rows _ _ _ (insert_lines_at-rows (at_least_one (first ps)) s v)

-- `deleteLines` on a valid screen, with the parameter `p`, once for 0: `p` times a blank row in the
-- current attributes comes in just below the bottom of the scroll region, and then the row of the
-- cursor goes; the scrollback stays as it is.
visible-delete_lines :
    (ps : List ℕ) (s : Screen)
    → IsValid s
    → RowsAfter
        (at_least_one (first ps))
        (rows_up_once s.y s.scroll_bottom (blank_line true s))
        s
        (delete_lines ps s)
unfolding delete_lines
visible-delete_lines ps s v =
    update_range-rows _ _ _ (delete_lines_at-rows (at_least_one (first ps)) s v)

-- `scrollUp` on a valid screen, with the parameter `p`, once for 0: `p` times the row at the top
-- of the scroll region goes and a default blank row comes in at its bottom; the scrollback stays
-- as it is.
visible-scroll_up :
    (ps : List ℕ) (s : Screen)
    → IsValid s
    → RowsAfter
        (at_least_one (first ps))
        (region_up s.scroll_top s.scroll_bottom (blank_line false s))
        s
        (scroll_up ps s)
unfolding scroll_up
visible-scroll_up ps s v =
    update_range-rows _ _ _ (scroll_up_lines-rows (at_least_one (first ps)) s v)

-- `scrollDown` on a valid screen, with the parameter `p`, once for 0: `p` times the row at the bottom of the scroll
-- region goes and a default blank row comes in at its top; the scrollback stays.
visible-scroll_down :
    (ps : List ℕ) (s : Screen)
    → IsValid s
    → RowsAfter
        (at_least_one (first ps))
        (region_down s.scroll_top s.scroll_bottom (blank_line false s))
        s
        (scroll_down ps s)
unfolding scroll_down
visible-scroll_down ps s v =
    update_range-rows _ _ _ (scroll_down_lines-rows (at_least_one (first ps)) s v)
