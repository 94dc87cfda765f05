-- ===== src/Screen/Lines.antt =====
-- `insertLines` and `deleteLines`.
use genie_tangle.Prelude.{ℕ, zero, suc, ◌+◌, true, List, insert_at, erase_at}
use genie_tangle.Screen.Buffer.{Screen, blank_line, update_range, first, at_least_one}

-- `while (param--) { … }`: `j` is `rows - 1 + ybase - (rows - 1 - scrollBottom) + 1`, which is
-- `ybase + scrollBottom + 1`.
unfoldable pub insert_lines_at : ℕ → Screen → Screen
insert_lines_at zero s = s
insert_lines_at (suc n) s = insert_lines_at n (record s {
  lines =
      erase_at (insert_at s.lines (s.y + s.ybase) (blank_line true s))
        (s.ybase + s.scroll_bottom + 1);
})

-- `while (param--) { … }`: `j` is `ybase + scrollBottom`.
unfoldable pub delete_lines_at : ℕ → Screen → Screen
delete_lines_at zero s = s
delete_lines_at (suc n) s = delete_lines_at n (record s {
  lines =
      erase_at (insert_at s.lines (s.ybase + s.scroll_bottom + 1) (blank_line true s))
        (s.y + s.ybase);
})

unfoldable pub insert_lines : List ℕ → Screen → Screen
insert_lines params s =
    let t = insert_lines_at (at_least_one (first params)) s in
    update_range t.scroll_bottom (update_range t.y t)

unfoldable pub delete_lines : List ℕ → Screen → Screen
delete_lines params s =
    let t = delete_lines_at (at_least_one (first params)) s in
    update_range t.scroll_bottom (update_range t.y t)
