-- ===== src/Screen/Scroll.antt =====
-- `scroll`, `scrollDisp`, `index`, `reverseIndex`, `scrollUp` and `scrollDown`.
use genie_tangle.Prelude.{
  ℕ, zero, suc, ◌+◌, ◌-◌, ◌/◌, true, false, List, ltb, ◌==◌, if◌then◌else◌, length, push, insert_at,
  erase_at, slice_last,
}
use genie_tangle.Screen.Buffer.{Screen, scrollback, blank_line, update_range, first, at_least_one}

-- `if (++this.ybase === Terminal.scrollback) { … }`: at the limit half of the scrollback goes.
-- `slice(-(ybase + rows) + 1)` keeps the last `ybase + rows - 1` lines.
unfoldable pub grow_base : Screen → Screen
grow_base s =
    let base = s.ybase + 1 in
    if base == scrollback
    then record s { ybase = base / 2; lines = slice_last (base / 2 + s.rows - 1) s.lines }
    else record s { ybase = base }

-- The new line, below the scroll region. On the integers `ybase + rows - 1` less the
-- `rows - 1 - scrollBottom` lines below the region is `ybase + scrollBottom`, for every region.
unfoldable pub add_line : Screen → Screen
add_line s =
    let row = s.ybase + s.scroll_bottom in
    record s {
      ydisp = s.ybase;
      lines =
          if row == length s.lines
          then push s.lines (blank_line false s)
          else insert_at s.lines row (blank_line false s);
    }

-- `if (this.scrollTop !== 0) { … }`: the line at the top of the region goes.
unfoldable pub drop_top : Screen → Screen
drop_top s =
    if s.scroll_top == 0
    then s
    else let base = s.ybase - 1 in
      record s {
        ybase = base;
        ydisp = if s.ybase == 0 then s.ydisp else base;
        lines = erase_at s.lines (base + s.scroll_top);
      }

unfoldable pub scroll : Screen → Screen
scroll s =
    let t = drop_top (add_line (grow_base s)) in
    update_range t.scroll_bottom (update_range t.scroll_top t)

-- `scrollDisp(-n)` and `scrollDisp(n)`, without the repaint
unfoldable pub scroll_disp_up : ℕ → Screen → Screen
scroll_disp_up n s =
    let d = s.ydisp - n in record s { ydisp = if ltb s.ybase d then s.ybase else d }

unfoldable pub scroll_disp_down : ℕ → Screen → Screen
scroll_disp_down n s =
    let d = s.ydisp + n in record s { ydisp = if ltb s.ybase d then s.ybase else d }

-- `this.y++; if (this.y > this.scrollBottom) { this.y--; this.scroll(); }`
unfoldable pub line_feed : Screen → Screen
line_feed s = if ltb s.scroll_bottom (s.y + 1) then scroll s else record s { y = s.y + 1 }

-- `index`, without the change of the parser's state
unfoldable pub index : Screen → Screen
index s = line_feed s

-- `reverseIndex`, without the change of the parser's state: `y - 1 < scrollTop` is tested as
-- `y < scrollTop + 1`, and `rows - 1 + ybase - j + 1` is `ybase + scrollBottom + 1`
unfoldable pub reverse_index : Screen → Screen
reverse_index s =
    let lines' =
      erase_at (insert_at s.lines (s.y + s.ybase) (blank_line true s))
        (s.ybase + s.scroll_bottom + 1) in
    let scrolled =
      update_range s.scroll_bottom (update_range s.scroll_top (record s { lines = lines' })) in
    if ltb s.y (s.scroll_top + 1) then scrolled else record s { y = s.y - 1 }

-- `while (param--) { … }` of `scrollUp` and of `scrollDown`
unfoldable pub scroll_up_lines : ℕ → Screen → Screen
scroll_up_lines zero s = s
scroll_up_lines (suc n) s = scroll_up_lines n (record s {
  lines =
      insert_at (erase_at s.lines (s.ybase + s.scroll_top)) (s.ybase + s.scroll_bottom)
        (blank_line false s);
})

unfoldable pub scroll_down_lines : ℕ → Screen → Screen
scroll_down_lines zero s = s
scroll_down_lines (suc n) s = scroll_down_lines n (record s {
  lines =
      insert_at (erase_at s.lines (s.ybase + s.scroll_bottom)) (s.ybase + s.scroll_top)
        (blank_line false s);
})

unfoldable pub scroll_up : List ℕ → Screen → Screen
scroll_up params s =
    let t = scroll_up_lines (at_least_one (first params)) s in
    update_range t.scroll_bottom (update_range t.scroll_top t)

unfoldable pub scroll_down : List ℕ → Screen → Screen
scroll_down params s =
    let t = scroll_down_lines (at_least_one (first params)) s in
    update_range t.scroll_bottom (update_range t.scroll_top t)
