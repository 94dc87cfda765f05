-- ===== src/Screen/Buffer.antt =====
-- The fields of the screen, blank lines, and the range of rows to repaint.
use genie_tangle.Prelude.{
  ℕ, ◌-◌, Bool, List, [], ◌∷◌, none, some, ltb, if◌then◌else◌, replicate, get_elem?, set, Outcome,
  ok, fault, type_error, suc, ◌&&◌, zero, true, get_or, ◌+◌, false,
}

-- A cell is the array `[attr, ch]`, or `undefined` where an assignment left a gap. No code writes
-- into such an array, so that cells which share one may be copies.
pub data Cell : Type 0 where
  hole : Cell
  cell : ℕ → ℕ → Cell

abbrev pub Row : Type 0
Row = List Cell

pub record Screen : Type 0 where
  pub cols : ℕ
  pub rows : ℕ
  pub ybase : ℕ
  pub ydisp : ℕ
  pub x : ℕ
  pub y : ℕ
  pub scroll_top : ℕ
  pub scroll_bottom : ℕ
  pub cur_attr : ℕ
  pub lines : List Row
  pub tabs : ℕ → Bool
  pub refresh_start : ℕ
  pub refresh_end : ℕ
  -- `undefined` before the first save, which `restoreCursor` reads as 0
  pub saved_x : ℕ
  pub saved_y : ℕ

-- `(257 << 9) | 256`: the default colours and no flag.
abbrev pub def_attr : ℕ
def_attr = 131840

abbrev pub space : ℕ
space = 32

-- `Terminal.scrollback`
abbrev pub scrollback : ℕ
scrollback = 1000

abbrev pub default_cols : ℕ
default_cols = 80

abbrev pub default_rows : ℕ
default_rows = 24

-- `blankLine()` and `blankLine(true)`
unfoldable pub blank_line : Bool → Screen → Row
blank_line cur s = replicate s.cols (cell (if cur then s.cur_attr else def_attr) space)

-- `[this.curAttr, ' ']`
abbrev pub blank : Screen → Cell
blank s = cell s.cur_attr space

unfoldable pub update_range : ℕ → Screen → Screen
update_range y s =
    let t = if ltb y s.refresh_start then record s { refresh_start = y } else s in
    if ltb t.refresh_end y then record t { refresh_end = y } else t

unfoldable pub max_range : Screen → Screen
max_range s = record s { refresh_start = 0; refresh_end = s.rows - 1 }

-- `params[0]` of a handler: the parser hands over one parameter at least.
abbrev pub first : List ℕ → ℕ
first [] = 0
first (p ∷ ps) = p

-- `if (param < 1) param = 1;` and `params[0] || 1`
unfoldable pub at_least_one : ℕ → ℕ
at_least_one p = if ltb p 1 then 1 else p

-- A write into the cells of `this.lines[row]`, which throws where there is no such line.
unfoldable pub with_line : ℕ → (Row → Row) → Screen → Outcome Screen
with_line row f s = elim (get_elem? s.lines row) [
  | none ↦ fault type_error
  | some line ↦ ok (record s { lines = set s.lines row (f line) })
]

-- `line[i][0]` can be read for the first `n` places of a line
unfoldable pub whole_cells : ℕ → Row → Bool
whole_cells zero line = true
whole_cells (suc n) [] = false
whole_cells (suc n) (hole ∷ line) = false
whole_cells (suc n) (cell a c ∷ line) = whole_cells n line

-- One round of the loop of `refresh`, which throws where a cell of `lines[y + ydisp]` or `children[y]` is
-- missing.
unfoldable pub row_is_whole : ℕ → Screen → Bool
row_is_whole y s = ltb y s.rows && whole_cells s.cols (get_or s.lines (y + s.ydisp) [])

-- the loop, with the rounds that are left
unfoldable pub rows_are_whole : ℕ → ℕ → Screen → Bool
rows_are_whole zero y s = true
rows_are_whole (suc n) y s = row_is_whole y s && rows_are_whole n (suc y) s
