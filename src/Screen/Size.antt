-- ===== src/Screen/Size.antt =====
-- The constructor's fields of the screen, and `resize` without the elements of the page.
use genie_tangle.Prelude.{
  ℕ, zero, suc, ◌+◌, ◌-◌, false, List, [], ◌∷◌, ◌++◌, some, none, ltb, ◌==◌, if◌then◌else◌, length,
  replicate, take, push, pop,
}
use genie_tangle.Screen.Buffer.{
  Row, Screen, cell, def_attr, space, default_cols, default_rows, blank_line, at_least_one,
}
use genie_tangle.Screen.Tabs.{no_stops, setup_stops}
use genie_tangle.Screen.Cursor.{below}

-- An object on which the constructor has not run.
abbrev pub unset : Screen
unset = record {
  cols = 0;
  rows = 0;
  ybase = 0;
  ydisp = 0;
  x = 0;
  y = 0;
  scroll_top = 0;
  scroll_bottom = 0;
  cur_attr = 0;
  lines = [];
  tabs = no_stops;
  refresh_start = 0;
  refresh_end = 0;
  saved_x = 0;
  saved_y = 0;
}

-- `Terminal.call(this, cols, rows)`: the saved cursor and the range to repaint are only named.
unfoldable pub construct : ℕ → ℕ → Screen → Screen
construct cols rows s =
    let c = if cols == 0 then default_cols else cols in
    let r = if rows == 0 then default_rows else rows in
    let t = record s {
      cols = c;
      rows = r;
      ybase = 0;
      ydisp = 0;
      x = 0;
      y = 0;
      scroll_top = 0;
      scroll_bottom = r - 1;
      cur_attr = def_attr;
    } in
    setup_stops none (record t { lines = replicate r (blank_line false t) })

-- `while (line.length < x) line.push(ch);`, with `ch` a default blank
abbrev pub widen : ℕ → Row → Row
widen x line = line ++ replicate (x - length line) (cell def_attr space)

-- for every line of the buffer
abbrev pub map_lines : (Row → Row) → List Row → List Row
map_lines f [] = []
map_lines f (line ∷ lines) = f line ∷ map_lines f lines

-- The columns; `while (line.length > x) line.pop();` is `take x`. The stops are set up while
-- `this.cols` is still the old width.
unfoldable pub resize_cols : ℕ → Screen → Screen
resize_cols x s =
    let lines' =
      if ltb s.cols x
      then map_lines (widen x) s.lines
      else if ltb x s.cols
      then map_lines (take x) s.lines
      else s.lines in
    record (setup_stops (some s.cols) (record s { lines = lines' })) { cols = x }

-- `while (j++ < y)`: a blank line where the buffer is shorter than `size`, which is `y + ybase`
unfoldable pub add_rows : ℕ → ℕ → Row → List Row → List Row
add_rows zero size line lines = lines
add_rows (suc n) size line lines =
    add_rows n size line (if ltb (length lines) size then push lines line else lines)

-- `while (j-- > y)`: the last line goes where the buffer is longer
unfoldable pub remove_rows : ℕ → ℕ → List Row → List Row
remove_rows zero size lines = lines
remove_rows (suc n) size lines =
    remove_rows n size (if ltb size (length lines) then pop lines else lines)

unfoldable pub resize_rows : ℕ → Screen → Screen
resize_rows y s =
    let grown = add_rows (y - s.rows) (y + s.ybase) (blank_line false s) s.lines in
    let shrunk = remove_rows (s.rows - y) (y + s.ybase) s.lines in
    record s { rows = y; lines = if ltb s.rows y then grown else shrunk }

unfoldable pub resize : ℕ → ℕ → Screen → Screen
resize x y s =
    let x' = at_least_one x in
    let y' = at_least_one y in
    let t = resize_rows y' (resize_cols x' s) in
    record t { y = below y' t.y; x = below x' t.x; scroll_top = 0; scroll_bottom = y' - 1 }
