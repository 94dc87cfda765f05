-- ===== src/Screen/Faults.antt =====
-- Where the handlers leave the cursor off the screen, and the next character throws.
use genie_tangle.Screen.Valid.{IsValid}
use genie_tangle.Screen.Scroll.{line_feed}
use genie_tangle.Screen.Valid.Sizes.{length-resize}
use genie_tangle.Screen.Chars.{print, wrap}
use genie_tangle.Screen.Tabs.{setup_stops}
use genie_tangle.Screen.Cursor.{second_or, set_scroll_region, restore_cursor}
use genie_tangle.Prelude.{
  length, [], refl, leb, ◌∷◌, ltb, ◌+◌, fault, type_error, ◌≡◌, ◌-◌, ◌≤◌, arith, ℕ, false, ◌<◌,
  get_elem?-none, assign,
}
use genie_tangle.Screen.Buffer.{with_line, Screen, at_least_one, cell, Row, hole}
use genie_tangle.Screen.Size.{resize_cols, resize_rows, resize}

pub no_wrap : (s : Screen) → s.x < s.cols → wrap s ≡ s
unfolding wrap
no_wrap s h = let e : leb s.cols s.x ≡ false = ground arith in rw e refl

no_line :
    (row : ℕ) (f : Row → Row) (s : Screen)
    → length s.lines ≤ row
    → with_line row f s ≡ fault type_error
unfolding with_line
no_line row f s h = rw (with_line, get_elem?-none s.lines row h) refl

-- With the cursor's row past the end of the buffer, printing throws.
print_beyond :
    (ch : ℕ) (s : Screen)
    → s.x < s.cols
    → length s.lines ≤ s.y + s.ybase
    → print ch s ≡ fault type_error
unfolding print
print_beyond ch s h k =
    rw
      (no_wrap s h, no_line (s.y + s.ybase) (λ line. assign hole line s.x (cell s.cur_attr ch)) s k)
      refl

-- The bounds of `setScrollRegion` are not held to the screen: on a valid screen, after a region whose
-- bottom lies past the last row, a line feed in the last row leaves the screen, and the next
-- character throws.
pub set_scroll_region-fault :
    (p q ch : ℕ) (s : Screen)
    → IsValid s
    → s.rows < q
    → let t = set_scroll_region (p ∷ q ∷ []) s in
      print ch (line_feed (record t { y = t.rows - 1 })) ≡ fault type_error
unfolding set_scroll_region line_feed
set_scroll_region-fault p q ch s v h =
    let e : ltb (second_or s.rows (p ∷ q ∷ []) - 1) (s.rows - 1 + 1) ≡ false = ground arith in
    rw e (print_beyond ch _ v.cols_pos (omega (arith, v.full, v.row_in)))

-- On a valid screen: where `resize` leaves the saved row off the screen, and the saved column on
-- it, the next character after the cursor is restored throws.
pub restore_cursor-fault :
    (x y ch : ℕ) (s : Screen)
    → IsValid s
    → at_least_one y ≤ s.saved_y
    → s.saved_x < at_least_one x
    → print ch (restore_cursor (resize x y s)) ≡ fault type_error
unfolding restore_cursor resize resize_cols resize_rows setup_stops
restore_cursor-fault x y ch s v h k = print_beyond ch _ k (omega (arith, length-resize x y s v, h))
