-- ===== src/Terminal/Csi.antt =====
-- The state `csi` of `write`: the parameters, and the handlers by their final character.
use genie_tangle.Prelude.{
  ℕ, ◌+◌, ◌-◌, ◌*◌, Bool, List, [], ◌∷◌, ltb, ◌==◌, ◌&&◌, ◌||◌, if◌then◌else◌, length, push,
  text_eq, is_empty, is_digit, Outcome, ok, ◌>>=◌,
}
use genie_tangle.Screen.Tabs.{cursor_forward_tab, cursor_backward_tab, tab_clear}
use genie_tangle.Screen.Erase.{erase_in_display, erase_in_line}
use genie_tangle.Screen.Scroll.{scroll_up, scroll_down}
use genie_tangle.Screen.Lines.{insert_lines, delete_lines}
use genie_tangle.Screen.Cursor.{
  cursor_up, cursor_down, cursor_forward, cursor_backward, cursor_pos, cursor_next_line,
  cursor_preceding_line, cursor_char_absolute, char_pos_absolute, h_position_relative,
  line_pos_absolute, v_position_relative, hv_position, set_scroll_region, save_cursor,
  restore_cursor,
}
use genie_tangle.Screen.Chars.{insert_chars, delete_chars, erase_chars, repeat_preceding_character}
use genie_tangle.Terminal.State.{State, Parser, Terminal, on_screen, try_screen}
use genie_tangle.Terminal.Attr.{char_attributes}
use genie_tangle.Terminal.Modes.{set_mode_all, reset_mode_all, soft_reset}
use genie_tangle.Terminal.Report.{device_status, send_device_attributes}

-- The handlers that the final characters call.
pub data Command : Type 0 where
  up down right left position erase_display erase_row graphics status : Command
  blank_chars line_down line_up column insert_rows delete_rows delete erase : Command
  column_absolute column_relative device_attributes row_absolute row_relative : Command
  row_column set_modes reset_modes region store_cursor recall_cursor : Command
  forward_tab rows_up rows_down backward_tab repeat clear_tab soft no_command : Command

-- `case 'I'` and the rest of the `switch`
unfoldable pub lesser_command : ℕ → Command
lesser_command ch =
    if ch == b'I'
    then forward_tab
    else if ch == b'S'
    then rows_up
    else if ch == b'T'
    then rows_down
    else if ch == b'Z'
    then backward_tab
    else if ch == b'b'
    then repeat
    else if ch == b'g'
    then clear_tab
    else if ch == b'p'
    then soft
    else no_command

-- the cases under "Additions"
unfoldable pub added_command : ℕ → Command
added_command ch =
    if ch == b'@'
    then blank_chars
    else if ch == b'E'
    then line_down
    else if ch == b'F'
    then line_up
    else if ch == b'G'
    then column
    else if ch == b'L'
    then insert_rows
    else if ch == b'M'
    then delete_rows
    else if ch == b'P'
    then delete
    else if ch == b'X'
    then erase
    else if ch == b'`'
    then column_absolute
    else if ch == b'a'
    then column_relative
    else if ch == b'c'
    then device_attributes
    else if ch == b'd'
    then row_absolute
    else if ch == b'e'
    then row_relative
    else if ch == b'f'
    then row_column
    else if ch == b'h'
    then set_modes
    else if ch == b'l'
    then reset_modes
    else if ch == b'r'
    then region
    else if ch == b's'
    then store_cursor
    else if ch == b'u'
    then recall_cursor
    else lesser_command ch

unfoldable pub command_of : ℕ → Command
command_of ch =
    if ch == b'A'
    then up
    else if ch == b'B'
    then down
    else if ch == b'C'
    then right
    else if ch == b'D'
    then left
    else if ch == b'H'
    then position
    else if ch == b'J'
    then erase_display
    else if ch == b'K'
    then erase_row
    else if ch == b'm'
    then graphics
    else if ch == b'n'
    then status
    else added_command ch

abbrev pub bang : List ℕ
bang = b'!' ∷ []

-- The call of the handler, with its conditions at the call.
unfoldable pub run_command : Command → List ℕ → Terminal → Outcome Terminal
run_command up ps t = ok (on_screen (cursor_up ps) t)
run_command down ps t = ok (on_screen (cursor_down ps) t)
run_command right ps t = ok (on_screen (cursor_forward ps) t)
run_command left ps t = ok (on_screen (cursor_backward ps) t)
run_command position ps t = ok (on_screen (cursor_pos ps) t)
run_command erase_display ps t = try_screen (erase_in_display ps) t
run_command erase_row ps t = try_screen (erase_in_line ps) t
run_command graphics ps t = ok (on_screen (char_attributes ps) t)
run_command status ps t = ok (device_status ps t)
run_command blank_chars ps t = try_screen (insert_chars ps) t
run_command line_down ps t = ok (on_screen (cursor_next_line ps) t)
run_command line_up ps t = ok (on_screen (cursor_preceding_line ps) t)
run_command column ps t = ok (on_screen (cursor_char_absolute ps) t)
run_command insert_rows ps t = ok (on_screen (insert_lines ps) t)
run_command delete_rows ps t = ok (on_screen (delete_lines ps) t)
run_command delete ps t = try_screen (delete_chars ps) t
run_command erase ps t = try_screen (erase_chars ps) t
run_command column_absolute ps t = ok (on_screen (char_pos_absolute ps) t)
run_command column_relative ps t = ok (on_screen (h_position_relative ps) t)
run_command device_attributes ps t = ok (send_device_attributes ps t)
run_command row_absolute ps t = ok (on_screen (line_pos_absolute ps) t)
run_command row_relative ps t = ok (on_screen (v_position_relative ps) t)
run_command row_column ps t = try_screen (hv_position ps) t
run_command set_modes ps t = ok (set_mode_all ps t)
run_command reset_modes ps t = ok (reset_mode_all ps t)
run_command region ps t =
    ok (if is_empty t.parser.prefix then on_screen (set_scroll_region ps) t else t)
run_command store_cursor ps t = ok (on_screen save_cursor t)
run_command recall_cursor ps t = ok (on_screen restore_cursor t)
run_command forward_tab ps t = ok (on_screen (cursor_forward_tab ps) t)
run_command rows_up ps t = ok (on_screen (scroll_up ps) t)
run_command rows_down ps t =
    ok (if ltb (length ps) 2 && is_empty t.parser.prefix then on_screen (scroll_down ps) t else t)
run_command backward_tab ps t = ok (on_screen (cursor_backward_tab ps) t)
run_command repeat ps t = try_screen (repeat_preceding_character ps) t
run_command clear_tab ps t = ok (on_screen (tab_clear ps) t)
run_command soft ps t = ok (if text_eq t.parser.prefix bang then soft_reset t else t)
run_command no_command ps t = ok t

abbrev pub on_parser : (Parser → Parser) → Terminal → Terminal
on_parser f t = record t { parser = f t.parser }

-- `this.prefix = ''; this.postfix = '';`
abbrev pub clear_marks : Terminal → Terminal
clear_marks = on_parser (λ p. record p { prefix = []; postfix = [] })

-- `this.params.push(this.currentParam); this.currentParam = 0;`
abbrev pub push_param : Terminal → Terminal
push_param = on_parser (λ p. record p { params = push p.params p.current_param; current_param = 0 })

-- The last character of a sequence.
unfoldable pub finish : ℕ → Terminal → Outcome Terminal
finish ch t = do
  u ←
      run_command (command_of ch) t.parser.params
        (on_parser (λ p. record p { state = State.normal }) t)
  ok (clear_marks u)

abbrev pub is_prefix : ℕ → Bool
is_prefix ch = ch == b'?' || ch == b'>' || ch == b'!'

abbrev pub is_postfix : ℕ → Bool
is_postfix ch = ch == b'$' || ch == 34 || ch == b' ' || ch == 39

unfoldable pub run_csi : ℕ → Terminal → Outcome Terminal
run_csi ch t =
    if is_prefix ch
    then ok (on_parser (λ p. record p { prefix = ch ∷ [] }) t)
    else if is_digit ch
    then ok (on_parser (λ p. record p { current_param = p.current_param * 10 + ch - 48 }) t)
    else if is_postfix ch
    then ok (on_parser (λ p. record p { postfix = ch ∷ [] }) t)
    else if ch == b';'
    then ok (push_param t)
    else finish ch (push_param t)
