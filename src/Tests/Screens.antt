-- ===== src/Tests/Screens.antt =====
-- The theorems on the screen, at the sample.

use genie_tangle.Screen.Rectangles.{fill_rectangle}
use genie_tangle.Screen.Cells.Rectangles.{LacksHole, char_changed, rectangles-Changed}
use genie_tangle.Screen.Cells.Changed.{Changed, is_inside}
use genie_tangle.Tests.Samples.{sample, sample-IsValid}
use genie_tangle.Screen.Size.{resize}
use genie_tangle.Screen.View.Scroll.{visible-scroll}
use genie_tangle.Screen.Lines.{insert_lines}
use genie_tangle.Screen.Cells.Printed.{CellWritten, print-cells}
use genie_tangle.Screen.View.Rounds.{visible-insert_lines, RowsAfter}
use genie_tangle.Screen.Stops.{next_stop-IsNext, IsNextStop}
use genie_tangle.Screen.Cells.{Painted, row_at}
use genie_tangle.Screen.Faults.{set_scroll_region-fault, restore_cursor-fault}
use genie_tangle.Screen.Tabs.{next_stop}
use genie_tangle.Screen.Chars.{print, insert_chars, wrap}
use genie_tangle.Screen.{blank, first, blank_line, cell, at_least_one, def_attr}
use genie_tangle.Screen.Cells.Shifted.{RowCells, shifted_right, insert_chars-shifted}
use genie_tangle.Screen.Erase.{erase_in_display}
use genie_tangle.Screen.Cells.Erased.{erase_in_display-Painted, erased_in_display}
use genie_tangle.Prelude.{
  Ends, ◌≡◌, ◌∷◌, ◌-◌, type_error, true, fault, false, arith, [], ◌+◌, suc, zero, refl,
}
use genie_tangle.Screen.View.{visible, region_up, rows_down_once}
use genie_tangle.Screen.Scroll.{line_feed, scroll}
use genie_tangle.Screen.Cursor.{restore_cursor, set_scroll_region}

visible-scroll_example :
    visible (scroll sample) ≡ region_up 1 2 (blank_line false sample) (visible sample)
visible-scroll_example = visible-scroll sample sample-IsValid

visible-insert_lines_example :
    RowsAfter
      (at_least_one (first (2 ∷ [])))
      (rows_down_once 1 2 (blank_line true sample))
      sample
      (insert_lines (2 ∷ []) sample)
visible-insert_lines_example = visible-insert_lines (2 ∷ []) sample sample-IsValid

erase_in_display-Painted_example :
    Ends
      (Painted sample (erased_in_display (first (1 ∷ [])) sample))
      (erase_in_display (1 ∷ []) sample)
erase_in_display-Painted_example = erase_in_display-Painted (1 ∷ []) sample sample-IsValid

insert_chars-shifted_example :
    Ends
      (RowCells sample
        (shifted_right (at_least_one (first (1 ∷ []))) 1 (blank sample) (row_at sample 1)))
      (insert_chars (1 ∷ []) sample)
insert_chars-shifted_example = insert_chars-shifted (1 ∷ []) sample sample-IsValid (omega arith)

print-cells_example :
    Ends (CellWritten (wrap sample) (cell (wrap sample).cur_attr b'x')) (print b'x' sample)
print-cells_example = print-cells b'x' sample sample-IsValid

next_stop-IsNext_example : IsNextStop sample 0 (next_stop sample 0)
next_stop-IsNext_example = next_stop-IsNext sample 0 (omega arith)

set_scroll_region-fault_example :
    print b'x' (
      line_feed (record (set_scroll_region (1 ∷ 9 ∷ []) sample) {
        y = (set_scroll_region (1 ∷ 9 ∷ []) sample).rows - 1;
      }))
    ≡ fault type_error
set_scroll_region-fault_example =
    set_scroll_region-fault 1 9 b'x' sample sample-IsValid (omega arith)

restore_cursor-fault_example : print b'x' (restore_cursor (resize 3 2 sample)) ≡ fault type_error
restore_cursor-fault_example =
    restore_cursor-fault 3 2 b'x' sample sample-IsValid (unfold at_least_one in omega arith)
      (unfold at_least_one in omega arith)

sample-LacksHole : LacksHole sample
sample-LacksHole zero zero h k = (def_attr, b'd', refl)
sample-LacksHole zero (suc zero) h k = (def_attr, b'd' + 1, refl)
sample-LacksHole zero (suc (suc zero)) h k = (def_attr, b'd' + 2, refl)
sample-LacksHole (suc zero) zero h k = (def_attr, b'g', refl)
sample-LacksHole (suc zero) (suc zero) h k = (def_attr, b'g' + 1, refl)
sample-LacksHole (suc zero) (suc (suc zero)) h k = (def_attr, b'g' + 2, refl)
sample-LacksHole (suc (suc zero)) zero h k = (def_attr, b'j', refl)
sample-LacksHole (suc (suc zero)) (suc zero) h k = (def_attr, b'j' + 1, refl)
sample-LacksHole (suc (suc zero)) (suc (suc zero)) h k = (def_attr, b'j' + 2, refl)
sample-LacksHole (suc (suc (suc y))) x h k = absurd (omega (arith, h))
sample-LacksHole y (suc (suc (suc x))) h k = absurd (omega (arith, k))

rectangles-Changed_example :
    Ends
      (Changed sample (is_inside 0 2 1 3) (char_changed b'x'))
      (fill_rectangle b'x' 0 1 1 3 sample)
rectangles-Changed_example =
    (rectangles-Changed 0 1 1 3 b'x' sample sample-IsValid sample-LacksHole (omega arith)
      (omega arith) (omega arith)).1
