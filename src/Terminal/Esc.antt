-- ===== src/Terminal/Esc.antt =====
-- The states `normal`, `escaped` and `charset` of `write`.
use genie_tangle.Prelude.{
  ℕ, ◌-◌, Bool, true, false, [], none, some, leb, ◌==◌, ◌||◌, if◌then◌else◌, Outcome, ok,
}
use genie_tangle.Screen.Tabs.{next_stop, tab_set}
use genie_tangle.Screen.Scroll.{line_feed, index, reverse_index}
use genie_tangle.Screen.Cursor.{save_cursor, restore_cursor}
use genie_tangle.Screen.Chars.{print}
use genie_tangle.Terminal.State.{
  State, escaped, csi, osc, dcs, ignore, ascii, scld, Charsets, Terminal, on_screen, try_screen,
  set_state, bell, reset,
}
use genie_tangle.Terminal.Charset.{set_glevel, set_gcharset, translate}

abbrev pub on_sets : (Charsets → Charsets) → Terminal → Terminal
on_sets f t = record t { sets = f t.sets }

-- The control characters of the state `normal`.
pub data Control : Type 0 where
  alarm newline carriage_return back_space tabulation shift_out shift_in escape_key : Control
  graphic : ℕ → Control
  no_control : Control

unfoldable pub control_of : ℕ → Control
control_of ch =
    if ch == 0x07
    then alarm
    else if ch == 0x0a || ch == 0x0b || ch == 0x0c
    then newline
    else if ch == 0x0d
    then carriage_return
    else if ch == 0x08
    then back_space
    else if ch == 0x09
    then tabulation
    else if ch == 0x0e
    then shift_out
    else if ch == 0x0f
    then shift_in
    else if ch == 0x1b
    then escape_key
    else if leb 0x20 ch
    then graphic ch
    else no_control

unfoldable pub run_control : Control → Terminal → Outcome Terminal
run_control alarm t = ok (bell t)
run_control newline t =
    ok (on_screen (λ s. line_feed (if t.modes.convert_eol then record s { x = 0 } else s)) t)
run_control carriage_return t = ok (on_screen (λ s. record s { x = 0 }) t)
run_control back_space t = ok (on_screen (λ s. record s { x = s.x - 1 }) t)
run_control tabulation t = ok (on_screen (λ s. record s { x = next_stop s s.x }) t)
run_control shift_out t = ok (on_sets (set_glevel 1) t)
run_control shift_in t = ok (on_sets (set_glevel 0) t)
run_control escape_key t = ok (set_state escaped t)
run_control (graphic ch) t = try_screen (print (translate t.sets.charset ch)) t
run_control no_control t = ok t

-- `params = []; currentParam = 0;` and the new state
abbrev pub begin_sequence : State → Terminal → Terminal
begin_sequence st t = record t {
  parser = record (t.parser) { params = []; current_param = 0; current_text = []; state = st };
}

-- The characters behind ESC.
pub data Escape : Type 0 where
  begin : State → Escape
  ignore_string full_reset next_line line_index reverse_line_index : Escape
  default_set : Escape
  designate : ℕ → Escape
  designate_g3 single_shift : Escape
  invoke : ℕ → Escape
  save restore line_size set_tab : Escape
  keypad : Bool → Escape
  unknown : Escape

unfoldable pub escape_of : ℕ → Escape
escape_of ch =
    if ch == b'['
    then begin csi
    else if ch == b']'
    then begin osc
    else if ch == b'P'
    then begin dcs
    else if ch == b'_' || ch == b'^'
    then ignore_string
    else if ch == b'c'
    then full_reset
    else if ch == b'E'
    then next_line
    else if ch == b'D'
    then line_index
    else if ch == b'M'
    then reverse_line_index
    else if ch == b'%'
    then default_set
    else if ch == b'('
    then designate 0
    else if ch == b')' || ch == b'-'
    then designate 1
    else if ch == b'*' || ch == b'.'
    then designate 2
    else if ch == b'+'
    then designate 3
    else if ch == b'/'
    then designate_g3
    else if ch == b'N' || ch == b'O'
    then single_shift
    else if ch == b'n' || ch == b'}'
    then invoke 2
    else if ch == b'o' || ch == b'|'
    then invoke 3
    else if ch == b'~'
    then invoke 1
    else if ch == b'7'
    then save
    else if ch == b'8'
    then restore
    else if ch == b'#'
    then line_size
    else if ch == b'H'
    then set_tab
    else if ch == b'='
    then keypad true
    else if ch == b'>'
    then keypad false
    else unknown

-- The state `charset`; all sets but the line drawing set are `null`. The flag says that the next
-- character is skipped (`i++`).
unfoldable pub run_charset : ℕ → Terminal → Terminal × Bool
run_charset ch t =
    let cs = if ch == b'0' then scld else ascii in
    let sets' = record (set_gcharset t.sets.gcharset cs t.sets) { gcharset = none } in
    (set_state State.normal (record t { sets = sets' }), ch == b'/')

-- One character behind ESC. `ESC /` makes `write` read the same character again in the state
-- `charset` (`i--`). The states stay as the code leaves them: `ESC N`, `O`, `n`, `o`, `|`, `}` and
-- `~` do not leave `escaped`.
unfoldable pub run_escape : Escape → Terminal → Terminal × Bool
run_escape (begin st) t = (begin_sequence st t, false)
run_escape ignore_string t = (set_state ignore t, false)
run_escape full_reset t = (reset t, false)
run_escape next_line t =
    (set_state State.normal (on_screen (λ s. index (record s { x = 0 })) t), false)
run_escape line_index t = (set_state State.normal (on_screen index t), false)
run_escape reverse_line_index t = (set_state State.normal (on_screen reverse_index t), false)
run_escape default_set t =
    (set_state State.normal (on_sets (λ c. set_gcharset (some 0) ascii (set_glevel 0 c)) t), true)
run_escape (designate g) t =
    (set_state State.charset (on_sets (λ c. record c { gcharset = some g }) t), false)
run_escape designate_g3 t =
    run_charset b'/' (set_state State.charset (on_sets (λ c. record c { gcharset = some 3 }) t))
run_escape single_shift t = (t, false)
run_escape (invoke g) t = (on_sets (set_glevel g) t, false)
run_escape save t = (set_state State.normal (on_screen save_cursor t), false)
run_escape restore t = (set_state State.normal (on_screen restore_cursor t), false)
run_escape line_size t = (set_state State.normal t, true)
run_escape set_tab t = (set_state State.normal (on_screen tab_set t), false)
run_escape (keypad v) t = (
  set_state State.normal (record t { modes = record (t.modes) { application_keypad = v } }),
  false,
)
run_escape unknown t = (set_state State.normal t, false)
