-- ===== src/Screen/Cursor.antt =====
-- The handlers that move the cursor, the scroll region, and the saved cursor.
use genie_tangle.Prelude.{
  ℕ, ◌+◌, ◌-◌, List, [], ◌∷◌, leb, ◌==◌, if◌then◌else◌, Outcome, ok, fault, not_a_number,
}
use genie_tangle.Screen.Buffer.{Screen, first, at_least_one}

-- `if (this.x >= this.cols) this.x = this.cols - 1;`, and so for the rows
abbrev pub below : ℕ → ℕ → ℕ
below bound k = if leb bound k then bound - 1 else k

-- `this.y -= param; if (this.y < 0) this.y = 0;` is the truncated difference.
unfoldable pub cursor_up : List ℕ → Screen → Screen
cursor_up params s = record s { y = s.y - at_least_one (first params) }

unfoldable pub cursor_down : List ℕ → Screen → Screen
cursor_down params s = record s { y = below s.rows (s.y + at_least_one (first params)) }

unfoldable pub cursor_forward : List ℕ → Screen → Screen
cursor_forward params s = record s { x = below s.cols (s.x + at_least_one (first params)) }

unfoldable pub cursor_backward : List ℕ → Screen → Screen
cursor_backward params s = record s { x = s.x - at_least_one (first params) }

-- `params[1] - 1`, or 0 where there is no second parameter
abbrev pub second_less_one : List ℕ → ℕ
second_less_one [] = 0
second_less_one (p ∷ []) = 0
second_less_one (p ∷ q ∷ ps) = q - 1

-- `params[0] - 1` below 0 becomes 0, which is the truncated difference.
unfoldable pub cursor_pos : List ℕ → Screen → Screen
cursor_pos params s = record s {
  x = below s.cols (second_less_one params);
  y = below s.rows (first params - 1);
}

unfoldable pub cursor_next_line : List ℕ → Screen → Screen
cursor_next_line params s = record s { x = 0; y = below s.rows (s.y + at_least_one (first params)) }

unfoldable pub cursor_preceding_line : List ℕ → Screen → Screen
cursor_preceding_line params s = record s { x = 0; y = s.y - at_least_one (first params) }

-- The column is not held below `cols`.
unfoldable pub cursor_char_absolute : List ℕ → Screen → Screen
cursor_char_absolute params s = record s { x = at_least_one (first params) - 1 }

unfoldable pub char_pos_absolute : List ℕ → Screen → Screen
char_pos_absolute params s = record s { x = below s.cols (at_least_one (first params) - 1) }

unfoldable pub h_position_relative : List ℕ → Screen → Screen
h_position_relative params s = record s { x = below s.cols (s.x + at_least_one (first params)) }

unfoldable pub line_pos_absolute : List ℕ → Screen → Screen
line_pos_absolute params s = record s { y = below s.rows (at_least_one (first params) - 1) }

unfoldable pub v_position_relative : List ℕ → Screen → Screen
v_position_relative params s = record s { y = below s.rows (s.y + at_least_one (first params)) }

-- With one parameter the code computes `undefined - 1`, and the column becomes `NaN`.
unfoldable pub hv_position : List ℕ → Screen → Outcome Screen
hv_position [] s = fault not_a_number
hv_position (p ∷ []) s = fault not_a_number
hv_position (p ∷ q ∷ ps) s =
    ok (record s { x = below s.cols (at_least_one q - 1); y = below s.rows (at_least_one p - 1) })

-- `(params[1] || this.rows) - 1`
abbrev pub second_or : ℕ → List ℕ → ℕ
second_or d [] = d
second_or d (p ∷ []) = d
second_or d (p ∷ q ∷ ps) = if q == 0 then d else q

-- Without a prefix: the bounds are taken as they come.
unfoldable pub set_scroll_region : List ℕ → Screen → Screen
set_scroll_region params s = record s {
  scroll_top = at_least_one (first params) - 1;
  scroll_bottom = second_or s.rows params - 1;
  x = 0;
  y = 0;
}

unfoldable pub save_cursor : Screen → Screen
save_cursor s = record s { saved_x = s.x; saved_y = s.y }

unfoldable pub restore_cursor : Screen → Screen
restore_cursor s = record s { x = s.saved_x; y = s.saved_y }
