-- ===== src/Rendering/Refresh.antt =====
-- `refresh`, the blinking of the cursor, and what of `open` makes the rows. Left out are the parent of
-- the terminal's element, which a large `refresh` takes the element from for the time of the loop,
-- and the timers of the blinking.
use genie_tangle.Rendering.Rows.{row_html}
use genie_tangle.Terminal.{Terminal, refresh}
use genie_tangle.Screen.{Row}
use genie_tangle.Prelude.{
  not, Bool, [], if◌then◌else◌, ◌>>=◌, fault, get_elem?, ◌==◌, if◌then◌else◌, ◌&&◌, none, ◌-◌,
  Option, if◌then◌else◌, zero, type_error, Outcome, List, set, ◌+◌, some, replicate, ok, suc, ℕ,
}

-- The rows of the page: what `innerHTML` of `this.children` holds.
abbrev pub Page : Type 0
Page = List (List ℕ)

-- `x`: the column of the cursor in the row `y`, if it is to be shown there
unfoldable pub cursor_column : ℕ → Terminal → Option ℕ
cursor_column y t =
    if y == t.scr.y && (t.cursor_state && (t.scr.ydisp == t.scr.ybase && not t.modes.cursor_hidden))
    then some t.scr.x
    else none

-- The line is missing only where the first round reads it.
abbrev pub line_html : Bool → Option ℕ → ℕ → Option Row → Outcome (List ℕ)
line_html broken_bold x width none = row_html broken_bold x width []
line_html broken_bold x width (some line) = row_html broken_bold x width line

-- `this.children[y].innerHTML = out`
unfoldable pub put_row : ℕ → List ℕ → Page → Outcome Page
put_row y out page = elim (get_elem? page y) [
  | none ↦ fault type_error
  | some old ↦ ok (set page y out)
]

-- one round of the outer loop
unfoldable pub refresh_row : Bool → ℕ → Terminal → Page → Outcome Page
refresh_row broken_bold y t page =
    let s = t.scr in
    line_html broken_bold (cursor_column y t) s.cols (get_elem? s.lines (y + s.ydisp)) >>= λ out.
    put_row y out page

-- `for (; y <= end; y++)` with the rounds that are left
unfoldable pub refresh_rows : Bool → ℕ → ℕ → Terminal → Page → Outcome Page
refresh_rows broken_bold zero y t page = ok page
refresh_rows broken_bold (suc n) y t page =
    refresh_row broken_bold y t page >>= refresh_rows broken_bold n (suc y) t

unfoldable pub refresh_page : Bool → ℕ → ℕ → Terminal → Page → Outcome Page
refresh_page broken_bold start end t page = refresh_rows broken_bold (end + 1 - start) start t page

-- the loop of `open`: one empty row for each row of the terminal
unfoldable pub open_page : Terminal → Page
open_page t = replicate t.scr.rows []

-- `cursorBlink`, on the terminal that has the focus
unfoldable pub cursor_blink : Terminal → Terminal
cursor_blink t = refresh t.scr.y t.scr.y (record t { cursor_state = not t.cursor_state })
