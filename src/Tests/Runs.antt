-- ===== src/Tests/Runs.antt =====
-- Runs of the terminal on short texts.
use genie_tangle.Prelude.{
  insert_at, erase_at, pop, slice_last, assign, decimal_within, decimal, ℕ, ◌≡◌, refl, List, [],
  ◌∷◌, ◌++◌, codes, Outcome, ok, fault, type_error, false, arith, length, Ends,
}
use genie_tangle.Screen.{
  blank_line, update_range, max_range, at_least_one, with_line, whole_cells, row_is_whole,
  rows_are_whole, Cell, hole, cell,
}
use genie_tangle.Screen.Tabs.{
  prev_stop_from, prev_stop, next_stop_from, next_stop, mark_stops, setup_stops, tab_set, tab_clear,
  forward_tabs, backward_tabs, cursor_forward_tab, cursor_backward_tab,
}
use genie_tangle.Screen.Erase.{
  fill_right, fill_left, erase_right, erase_left, erase_line, erase_below, erase_above,
  erase_in_display, erase_in_line,
}
use genie_tangle.Screen.Scroll.{
  grow_base, add_line, drop_top, scroll, scroll_disp_up, scroll_disp_down, line_feed, index,
  reverse_index, scroll_up_lines, scroll_down_lines, scroll_up, scroll_down,
}
use genie_tangle.Screen.Lines.{insert_lines_at, delete_lines_at, insert_lines, delete_lines}
use genie_tangle.Screen.Cursor.{
  cursor_up, cursor_down, cursor_forward, cursor_backward, cursor_pos, cursor_next_line,
  cursor_preceding_line, cursor_char_absolute, char_pos_absolute, h_position_relative,
  line_pos_absolute, v_position_relative, hv_position, set_scroll_region, save_cursor,
  restore_cursor,
}
use genie_tangle.Screen.Chars.{
  insert_cells, erase_cells, delete_cells, repeat_cells, insert_chars, delete_chars, erase_chars,
  preceding, repeat_preceding_character, wrap, print,
}
use genie_tangle.Screen.Size.{construct, resize_cols, add_rows, remove_rows, resize_rows, resize}
use genie_tangle.Terminal.{
  refresh, settle, send, flush, show_cursor, bell, initialise, reset, resize as resize_of_terminal,
  new_terminal, Terminal, on_screen,
}
use genie_tangle.Terminal.Charset.{set_glevel, set_gcharset, translate}
use genie_tangle.Terminal.Attr.{
  set_fg, set_bg, has_flag, set_flag, clear_flag, swap_colors, simple_attribute, extended_attribute,
  attributes, char_attributes,
}
use genie_tangle.Terminal.Modes.{
  private_mode, enter_with, enter_alternate, leave_with, leave_alternate, designate_ascii,
  set_private, restore_cols, leave_132, reset_private, set_mode, reset_mode, set_mode_all,
  reset_mode_all, soft_reset,
}
use genie_tangle.Terminal.Report.{cursor_report, device_status, is, send_device_attributes}
use genie_tangle.Terminal.Esc.{control_of, run_control, escape_of, run_charset, run_escape}
use genie_tangle.Terminal.Csi.{
  lesser_command, added_command, command_of, run_command, finish, run_csi,
}
use genie_tangle.Terminal.Strings.{
  set_title, end_osc, run_osc, status_string, answer_dcs, run_dcs, run_ignore,
}
use genie_tangle.Terminal.Write.{step_in, step, feed, start_write, end_write, write, writeln}
use genie_tangle.Rendering.Written.{PageFollows, write-PageFollows}
use genie_tangle.Screen.Valid.{InRange}
use genie_tangle.Terminal.Valid.Writes.{
  TextFits, write-IsSound, new_terminal-IsSound, write-InRange, Repaints,
}
use genie_tangle.Terminal.Valid.{IsSound}

-- One name for all that a run computes with.
after : ℕ → ℕ → List ℕ → Outcome Terminal
unfolding insert_at erase_at pop slice_last assign decimal_within decimal blank_line update_range
    max_range at_least_one with_line whole_cells row_is_whole rows_are_whole prev_stop_from
    prev_stop next_stop_from next_stop mark_stops setup_stops tab_set tab_clear forward_tabs
    backward_tabs cursor_forward_tab cursor_backward_tab fill_right fill_left erase_right erase_left
    erase_line erase_below erase_above erase_in_display erase_in_line grow_base add_line drop_top
    scroll scroll_disp_up scroll_disp_down line_feed index reverse_index scroll_up_lines
    scroll_down_lines scroll_up scroll_down insert_lines_at delete_lines_at insert_lines
    delete_lines cursor_up cursor_down cursor_forward cursor_backward cursor_pos cursor_next_line
    cursor_preceding_line cursor_char_absolute char_pos_absolute h_position_relative
    line_pos_absolute v_position_relative hv_position set_scroll_region save_cursor restore_cursor
    insert_cells erase_cells delete_cells repeat_cells insert_chars delete_chars erase_chars
    preceding repeat_preceding_character wrap print construct resize_cols add_rows remove_rows
    resize_rows resize refresh settle send flush show_cursor bell initialise reset
    resize_of_terminal new_terminal set_glevel set_gcharset translate set_fg set_bg has_flag
    set_flag clear_flag swap_colors simple_attribute extended_attribute attributes char_attributes
    private_mode enter_with enter_alternate leave_with leave_alternate designate_ascii set_private
    restore_cols leave_132 reset_private set_mode reset_mode set_mode_all reset_mode_all soft_reset
    cursor_report device_status is send_device_attributes control_of run_control escape_of
    run_charset run_escape lesser_command added_command command_of run_command finish run_csi
    set_title end_osc run_osc status_string answer_dcs run_dcs run_ignore step_in step feed
    start_write end_write write writeln
after cols rows text = write text (new_terminal cols rows)

-- The conditions of a text, computed.
Fits : ℕ → ℕ → List ℕ → Type 0
unfolding insert_at erase_at pop slice_last assign decimal_within decimal blank_line update_range
    max_range at_least_one with_line whole_cells row_is_whole rows_are_whole prev_stop_from
    prev_stop next_stop_from next_stop mark_stops setup_stops tab_set tab_clear forward_tabs
    backward_tabs cursor_forward_tab cursor_backward_tab fill_right fill_left erase_right erase_left
    erase_line erase_below erase_above erase_in_display erase_in_line grow_base add_line drop_top
    scroll scroll_disp_up scroll_disp_down line_feed index reverse_index scroll_up_lines
    scroll_down_lines scroll_up scroll_down insert_lines_at delete_lines_at insert_lines
    delete_lines cursor_up cursor_down cursor_forward cursor_backward cursor_pos cursor_next_line
    cursor_preceding_line cursor_char_absolute char_pos_absolute h_position_relative
    line_pos_absolute v_position_relative hv_position set_scroll_region save_cursor restore_cursor
    insert_cells erase_cells delete_cells repeat_cells insert_chars delete_chars erase_chars
    preceding repeat_preceding_character wrap print construct resize_cols add_rows remove_rows
    resize_rows resize refresh settle send flush show_cursor bell initialise reset
    resize_of_terminal new_terminal set_glevel set_gcharset translate set_fg set_bg has_flag
    set_flag clear_flag swap_colors simple_attribute extended_attribute attributes char_attributes
    private_mode enter_with enter_alternate leave_with leave_alternate designate_ascii set_private
    restore_cols leave_132 reset_private set_mode reset_mode set_mode_all reset_mode_all soft_reset
    cursor_report device_status is send_device_attributes control_of run_control escape_of
    run_charset run_escape lesser_command added_command command_of run_command finish run_csi
    set_title end_osc run_osc status_string answer_dcs run_dcs run_ignore step_in step feed
    start_write end_write write writeln
Fits cols rows text = TextFits false text (on_screen start_write (new_terminal cols rows))

-- The characters on the screen, 0 for `undefined`.
abbrev letter : Cell → ℕ
letter hole = 0
letter (cell a c) = c

abbrev letters : List Cell → List ℕ
letters [] = []
letters (c ∷ cs) = letter c ∷ letters cs

abbrev text_of : List (List Cell) → List (List ℕ)
text_of [] = []
text_of (l ∷ ls) = letters l ∷ text_of ls

abbrev shown : Outcome Terminal → List (List ℕ)
shown (ok t) = text_of t.scr.lines
shown (fault e) = []

two_lines :
    shown (after 3 2 (codes "ab" ++ (13 ∷ 10 ∷ codes "cd"))) ≡ codes "ab " ∷ codes "cd " ∷ []
unfolding after
two_lines = refl

addressed : shown (after 3 2 (27 ∷ codes "[2;3HX")) ≡ codes "   " ∷ codes "  X" ∷ []
unfolding after
addressed = refl

-- A wrap, and a scroll within a region of two rows.
wrapped : shown (after 2 3 (codes "abc")) ≡ codes "ab" ∷ codes "c " ∷ codes "  " ∷ []
unfolding after
wrapped = refl

region_scrolled :
    shown (
      after 1 3 (
        codes "a"
        ++ (27 ∷ codes "[2;3r" ++ (27 ∷ codes "[2;1Hb" ++ (13 ∷ 10 ∷ b'c' ∷ 13 ∷ 10 ∷ b'd' ∷ [])))))
    ≡ codes "a" ∷ codes "c" ∷ codes "d" ∷ []
unfolding after
region_scrolled = refl

-- The alternate screen comes and goes.
alternated :
    shown (after 2 1 (codes "a" ++ (27 ∷ codes "[?1049hb" ++ (27 ∷ codes "[?1049l"))))
    ≡ codes "a " ∷ []
unfolding after
alternated = refl

-- A line of the drawing set.
drawn : shown (after 2 1 (27 ∷ codes "(0qx")) ≡ (0x2500 ∷ 0x2502 ∷ []) ∷ []
unfolding after
drawn = refl

-- A text with a character, a scroll region and a position.
abbrev sample_text : List ℕ
sample_text = b'a' ∷ 27 ∷ codes "[1;2r"

sample_text-Fits : Fits 3 2 sample_text
unfolding Fits
sample_text-Fits = (tt, (tt, (tt, (tt, (tt, (tt, ((λ e. (omega arith, omega arith)), tt)))))))

write-IsSound_example : Ends IsSound (write sample_text (new_terminal 3 2))
unfolding Fits
write-IsSound_example =
    write-IsSound sample_text (new_terminal 3 2) (new_terminal-IsSound 3 2) sample_text-Fits

write-InRange_example :
    Ends (λ u. Repaints u × InRange u.scr) (write sample_text (new_terminal 3 2))
unfolding Fits
write-InRange_example =
    write-InRange sample_text (new_terminal 3 2) (new_terminal-IsSound 3 2) sample_text-Fits

two_rows : length {A = List ℕ} ([] ∷ [] ∷ []) ≡ (new_terminal 3 2).scr.rows
unfolding new_terminal initialise construct setup_stops
two_rows = refl

write-PageFollows_example :
    Ends (PageFollows false ([] ∷ [] ∷ [])) (write sample_text (new_terminal 3 2))
unfolding Fits
write-PageFollows_example =
    write-PageFollows false sample_text (new_terminal 3 2) ([] ∷ [] ∷ []) (new_terminal-IsSound 3 2)
      sample_text-Fits two_rows

-- A character is inserted in the third row, and the cursor goes back to the first one: the third row has
-- changed, and is not among the rows to repaint.
abbrev range_of : Outcome Terminal → List ℕ
range_of (ok t) = t.scr.refresh_start ∷ t.scr.refresh_end ∷ []
range_of (fault e) = []

abbrev then_write : List ℕ → Outcome Terminal → Outcome Terminal
then_write text (ok t) = write text t
then_write text (fault e) = fault e

stale : List (List ℕ)
unfolding insert_at erase_at pop slice_last assign decimal_within decimal blank_line update_range
    max_range at_least_one with_line whole_cells row_is_whole rows_are_whole prev_stop_from
    prev_stop next_stop_from next_stop mark_stops setup_stops tab_set tab_clear forward_tabs
    backward_tabs cursor_forward_tab cursor_backward_tab fill_right fill_left erase_right erase_left
    erase_line erase_below erase_above erase_in_display erase_in_line grow_base add_line drop_top
    scroll scroll_disp_up scroll_disp_down line_feed index reverse_index scroll_up_lines
    scroll_down_lines scroll_up scroll_down insert_lines_at delete_lines_at insert_lines
    delete_lines cursor_up cursor_down cursor_forward cursor_backward cursor_pos cursor_next_line
    cursor_preceding_line cursor_char_absolute char_pos_absolute h_position_relative
    line_pos_absolute v_position_relative hv_position set_scroll_region save_cursor restore_cursor
    insert_cells erase_cells delete_cells repeat_cells insert_chars delete_chars erase_chars
    preceding repeat_preceding_character wrap print construct resize_cols add_rows remove_rows
    resize_rows resize refresh settle send flush show_cursor bell initialise reset
    resize_of_terminal new_terminal set_glevel set_gcharset translate set_fg set_bg has_flag
    set_flag clear_flag swap_colors simple_attribute extended_attribute attributes char_attributes
    private_mode enter_with enter_alternate leave_with leave_alternate designate_ascii set_private
    restore_cols leave_132 reset_private set_mode reset_mode set_mode_all reset_mode_all soft_reset
    cursor_report device_status is send_device_attributes control_of run_control escape_of
    run_charset run_escape lesser_command added_command command_of run_command finish run_csi
    set_title end_osc run_osc status_string answer_dcs run_dcs run_ignore step_in step feed
    start_write end_write write writeln
stale =
    let m = write (27 ∷ codes "[3;1Ha" ++ (27 ∷ codes "[1;1H")) (new_terminal 2 3) in
    let n = then_write (27 ∷ codes "[3;1H" ++ (27 ∷ codes "[@" ++ (27 ∷ codes "[1;1H"))) m in
    range_of n ∷ (shown m ++ shown n)

stale_row :
    stale
    ≡ (0 ∷ 0 ∷ [])
      ∷ codes "  "
      ∷ codes "  "
      ∷ codes "a "
      ∷ codes "  "
      ∷ codes "  "
      ∷ codes " a"
      ∷ []
unfolding stale
stale_row = refl

-- A character is repeated right of the right edge, and the screen is made wider: the `refresh` of
-- `resize` throws.
gap_thrown :
    after 2 1 (27 ∷ codes "[5G" ++ (27 ∷ codes "[b" ++ (27 ∷ codes "[?3h"))) ≡ fault type_error
unfolding after
gap_thrown = refl
