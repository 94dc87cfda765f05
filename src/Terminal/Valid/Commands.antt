-- ===== src/Terminal/Valid/Commands.antt =====
-- The handlers of control sequences, on a sound terminal.
use genie_tangle.Screen.Scroll.{scroll_up, scroll_down}
use genie_tangle.Screen.Erase.{erase_in_line, erase_in_display}
use genie_tangle.Screen.Lines.{insert_lines, delete_lines}
use genie_tangle.Screen.Chars.{insert_chars, delete_chars, repeat_preceding_character, erase_chars}
use genie_tangle.Terminal.Attr.{char_attributes}
use genie_tangle.Screen.Tabs.{cursor_forward_tab, tab_clear, cursor_backward_tab}
use genie_tangle.Terminal.Report.{send_device_attributes, device_status}
use genie_tangle.Screen.{first}
use genie_tangle.Screen.Cursor.{
  hv_position, set_scroll_region, cursor_char_absolute, cursor_preceding_line, cursor_pos,
  v_position_relative, cursor_next_line, cursor_down, h_position_relative, cursor_forward,
  restore_cursor, char_pos_absolute, cursor_up, save_cursor, line_pos_absolute, cursor_backward,
}
use genie_tangle.Terminal.State.{send, Terminal}
use genie_tangle.Terminal.Valid.Switches.{
  soft_reset-IsDrawn, reset_mode_all-IsDrawn, set_mode_all-IsDrawn,
}
use genie_tangle.Screen.Valid.Scrolls.{
  insert_lines-Kept, scroll_down-Kept, delete_lines-Kept, scroll_up-Kept,
}
use genie_tangle.Screen.Valid.Rows.{
  erase_chars-Kept, repeat_preceding_character-Kept, delete_chars-Kept, insert_chars-Kept,
  erase_in_display-Kept, erase_in_line-Kept,
}
use genie_tangle.Terminal.Modes.{question}
use genie_tangle.Screen.Valid.Moves.{
  cursor_pos-Kept, cursor_backward_tab-Kept, cursor_char_absolute-Kept, cursor_forward_tab-Kept,
  cursor_forward-Kept, cursor_next_line-Kept, char_pos_absolute-Kept, hv_position-Kept,
  cursor_backward-Kept, save_cursor-Kept, h_position_relative-Kept, restore_cursor-Kept,
  set_scroll_region-Kept, cursor_down-Kept, cursor_preceding_line-Kept, tab_clear-Kept,
  v_position_relative-Kept, RegionFits, cursor_up-Kept, char_attributes-Kept,
  line_pos_absolute-Kept,
}
use genie_tangle.Terminal.Valid.Defs.{try_screen-IsDrawn, other-IsDrawn, on_screen-IsDrawn, IsDrawn}
use genie_tangle.Terminal.Csi.{
  column_absolute, down, erase, row_absolute, store_cursor, delete_rows, Command, right, up,
  set_modes, region, column, recall_cursor, line_up, row_column, row_relative, run_command,
  column_relative, insert_rows, no_command, backward_tab, status, repeat, reset_modes, position,
  graphics, left, erase_display, delete, bang, forward_tab, soft, clear_tab, device_attributes,
  line_down, erase_row, rows_up, blank_chars, rows_down,
}
use genie_tangle.Prelude.{
  true, Ends, text_eq, length, if-both, is_empty, ◌≡◌, List, ◌&&◌, [], ltb, Bool-cases, refl, ◌≤◌,
  inr, ◌∷◌, arith, ◌==◌, inl, ℕ,
}

-- What the three handlers that check too little need.
abbrev pub CommandFits : Command → List ℕ → Terminal → Type 0
CommandFits region ps t = is_empty t.parser.prefix ≡ true → RegionFits ps t.scr
CommandFits row_column ps t = 2 ≤ length ps
CommandFits repeat ps t = t.scr.x ≤ t.scr.cols
CommandFits _ ps t = Unit {0}

module _ {R : Type 0} {height : ℕ} where
  send-IsDrawn :
      (text : List ℕ) {t : Terminal} → IsDrawn R height t → IsDrawn R height (send text t)
  unfolding send
  send-IsDrawn text v = other-IsDrawn v refl refl refl

  -- The answers change the queue alone.
  device_status-IsDrawn :
      (ps : List ℕ) (t : Terminal) → IsDrawn R height t → IsDrawn R height (device_status ps t)
  unfolding device_status
  device_status-IsDrawn ps t v =
      if-both (IsDrawn R height) (is_empty t.parser.prefix)
        (if-both (IsDrawn R height) (first ps == 5) (send-IsDrawn _ v)
          (if-both (IsDrawn R height) (first ps == 6) (send-IsDrawn _ v) v))
        (if-both (IsDrawn R height) (text_eq t.parser.prefix question)
          (if-both (IsDrawn R height) (first ps == 6) (send-IsDrawn _ v) v) v)

  send_device_attributes-IsDrawn :
      (ps : List ℕ) (t : Terminal)
      → IsDrawn R height t
      → IsDrawn R height (send_device_attributes ps t)
  send_device_attributes-IsDrawn ps t v = other-IsDrawn v scr normal threw
    where
      scr : (send_device_attributes ps t).scr ≡ t.scr
      scr = unfold send_device_attributes send in ground arith

      normal : (send_device_attributes ps t).normal ≡ t.normal
      normal = unfold send_device_attributes send in ground arith

      threw : (send_device_attributes ps t).io.threw ≡ t.io.threw
      threw = unfold send_device_attributes send in ground arith

  region-IsDrawn :
      (ps : List ℕ) (t : Terminal)
      → IsDrawn R height t
      → CommandFits region ps t
      → Ends (IsDrawn R height) (run_command region ps t)
  unfolding run_command
  region-IsDrawn ps t v h = elim (Bool-cases (is_empty t.parser.prefix)) [
    | inl e ↦
        rw (e, Ends)
          (on_screen-IsDrawn (set_scroll_region ps) v
            (set_scroll_region-Kept ps t.scr v.sound.screen (h e)))
    | inr e ↦ rw (e, Ends) v
  ]

  row_column-IsDrawn :
      (ps : List ℕ) (t : Terminal)
      → IsDrawn R height t
      → 2 ≤ length ps
      → Ends (IsDrawn R height) (run_command row_column ps t)
  unfolding run_command
  row_column-IsDrawn [] t v h = absurd (omega arith)
  row_column-IsDrawn (p ∷ []) t v h = absurd (omega arith)
  row_column-IsDrawn (p ∷ q ∷ ps) t v h =
      try_screen-IsDrawn (hv_position (p ∷ q ∷ ps)) v (hv_position-Kept p q ps t.scr v.sound.screen)

  pub run_command-IsDrawn :
      (c : Command) (ps : List ℕ) (t : Terminal)
      → IsDrawn R height t
      → CommandFits c ps t
      → Ends (IsDrawn R height) (run_command c ps t)
  unfolding run_command
  run_command-IsDrawn up ps t v h =
      on_screen-IsDrawn (cursor_up ps) v (cursor_up-Kept ps t.scr v.sound.screen)
  run_command-IsDrawn down ps t v h =
      on_screen-IsDrawn (cursor_down ps) v (cursor_down-Kept ps t.scr v.sound.screen)
  run_command-IsDrawn right ps t v h =
      on_screen-IsDrawn (cursor_forward ps) v (cursor_forward-Kept ps t.scr v.sound.screen)
  run_command-IsDrawn left ps t v h =
      on_screen-IsDrawn (cursor_backward ps) v (cursor_backward-Kept ps t.scr v.sound.screen)
  run_command-IsDrawn position ps t v h =
      on_screen-IsDrawn (cursor_pos ps) v (cursor_pos-Kept ps t.scr v.sound.screen)
  run_command-IsDrawn erase_display ps t v h =
      try_screen-IsDrawn (erase_in_display ps) v (erase_in_display-Kept ps t.scr v.sound.screen)
  run_command-IsDrawn erase_row ps t v h =
      try_screen-IsDrawn (erase_in_line ps) v (erase_in_line-Kept ps t.scr v.sound.screen)
  run_command-IsDrawn graphics ps t v h =
      on_screen-IsDrawn (char_attributes ps) v (char_attributes-Kept ps t.scr v.sound.screen)
  run_command-IsDrawn status ps t v h = device_status-IsDrawn ps t v
  run_command-IsDrawn blank_chars ps t v h =
      try_screen-IsDrawn (insert_chars ps) v (insert_chars-Kept ps t.scr v.sound.screen)
  run_command-IsDrawn line_down ps t v h =
      on_screen-IsDrawn (cursor_next_line ps) v (cursor_next_line-Kept ps t.scr v.sound.screen)
  run_command-IsDrawn line_up ps t v h =
      on_screen-IsDrawn (cursor_preceding_line ps) v
        (cursor_preceding_line-Kept ps t.scr v.sound.screen)
  run_command-IsDrawn column ps t v h =
      on_screen-IsDrawn (cursor_char_absolute ps) v
        (cursor_char_absolute-Kept ps t.scr v.sound.screen)
  run_command-IsDrawn insert_rows ps t v h =
      on_screen-IsDrawn (insert_lines ps) v (insert_lines-Kept ps t.scr v.sound.screen)
  run_command-IsDrawn delete_rows ps t v h =
      on_screen-IsDrawn (delete_lines ps) v (delete_lines-Kept ps t.scr v.sound.screen)
  run_command-IsDrawn delete ps t v h =
      try_screen-IsDrawn (delete_chars ps) v (delete_chars-Kept ps t.scr v.sound.screen)
  run_command-IsDrawn erase ps t v h =
      try_screen-IsDrawn (erase_chars ps) v (erase_chars-Kept ps t.scr v.sound.screen)
  run_command-IsDrawn column_absolute ps t v h =
      on_screen-IsDrawn (char_pos_absolute ps) v (char_pos_absolute-Kept ps t.scr v.sound.screen)
  run_command-IsDrawn column_relative ps t v h =
      on_screen-IsDrawn (h_position_relative ps) v
        (h_position_relative-Kept ps t.scr v.sound.screen)
  run_command-IsDrawn device_attributes ps t v h = send_device_attributes-IsDrawn ps t v
  run_command-IsDrawn row_absolute ps t v h =
      on_screen-IsDrawn (line_pos_absolute ps) v (line_pos_absolute-Kept ps t.scr v.sound.screen)
  run_command-IsDrawn row_relative ps t v h =
      on_screen-IsDrawn (v_position_relative ps) v
        (v_position_relative-Kept ps t.scr v.sound.screen)
  run_command-IsDrawn row_column ps t v h = row_column-IsDrawn ps t v h
  run_command-IsDrawn set_modes ps t v h = set_mode_all-IsDrawn ps t v
  run_command-IsDrawn reset_modes ps t v h = reset_mode_all-IsDrawn ps t v
  run_command-IsDrawn region ps t v h = region-IsDrawn ps t v h
  run_command-IsDrawn store_cursor ps t v h =
      on_screen-IsDrawn save_cursor v (save_cursor-Kept t.scr v.sound.screen)
  run_command-IsDrawn recall_cursor ps t v h =
      on_screen-IsDrawn restore_cursor v (restore_cursor-Kept t.scr v.sound.screen)
  run_command-IsDrawn forward_tab ps t v h =
      on_screen-IsDrawn (cursor_forward_tab ps) v (cursor_forward_tab-Kept ps t.scr v.sound.screen)
  run_command-IsDrawn rows_up ps t v h =
      on_screen-IsDrawn (scroll_up ps) v (scroll_up-Kept ps t.scr v.sound.screen)
  run_command-IsDrawn rows_down ps t v h =
      if-both (IsDrawn R height) (ltb (length ps) 2 && is_empty t.parser.prefix)
        (on_screen-IsDrawn (scroll_down ps) v (scroll_down-Kept ps t.scr v.sound.screen)) v
  run_command-IsDrawn backward_tab ps t v h =
      on_screen-IsDrawn (cursor_backward_tab ps) v
        (cursor_backward_tab-Kept ps t.scr v.sound.screen)
  run_command-IsDrawn repeat ps t v h =
      try_screen-IsDrawn (repeat_preceding_character ps) v
        (repeat_preceding_character-Kept ps t.scr v.sound.screen h)
  run_command-IsDrawn clear_tab ps t v h =
      on_screen-IsDrawn (tab_clear ps) v (tab_clear-Kept ps t.scr v.sound.screen)
  run_command-IsDrawn soft ps t v h =
      if-both (IsDrawn R height) (text_eq t.parser.prefix bang) (soft_reset-IsDrawn t v) v
  run_command-IsDrawn no_command ps t v h = v
