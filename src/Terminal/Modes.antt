-- ===== src/Terminal/Modes.antt =====
-- `setMode`, `resetMode`, `softReset`, and the alternate screen.
use genie_tangle.Prelude.{
  ℕ, ◌-◌, true, false, List, [], ◌∷◌, none, some, ltb, ◌==◌, ◌||◌, if◌then◌else◌, text_eq, is_empty,
  Option,
}
use genie_tangle.Screen.{Screen, def_attr}
use genie_tangle.Terminal.State.{
  ascii, Charsets, Modes, Saved, Terminal, refresh, show_cursor, reset, resize,
}
use genie_tangle.Terminal.Charset.{set_gcharset}

-- The cases of the two `switch` statements behind the prefix `?`.
pub data PrivateMode : Type 0 where
  cursor_keys : PrivateMode
  designate_us : PrivateMode
  columns_132 : PrivateMode
  origin : PrivateMode
  wraparound : PrivateMode
  mouse : PrivateMode
  focus_events : PrivateMode
  utf : PrivateMode
  sgr : PrivateMode
  urxvt : PrivateMode
  visible_cursor : PrivateMode
  alternate_screen : PrivateMode
  no_mode : PrivateMode

unfoldable pub private_mode : ℕ → PrivateMode
private_mode p =
    if p == 1
    then cursor_keys
    else if p == 2
    then designate_us
    else if p == 3
    then columns_132
    else if p == 6
    then origin
    else if p == 7
    then wraparound
    else if p == 9 || p == 1000 || p == 1002 || p == 1003
    then mouse
    else if p == 1004
    then focus_events
    else if p == 1005
    then utf
    else if p == 1006
    then sgr
    else if p == 1015
    then urxvt
    else if p == 25
    then visible_cursor
    else if p == 1049 || p == 47 || p == 1047
    then alternate_screen
    else no_mode

abbrev pub set_modes_of : (Modes → Modes) → Terminal → Terminal
set_modes_of f t = record t { modes = f t.modes }

-- What `setMode` puts aside.
abbrev pub save_screen : Screen → Saved
save_screen s = record {
  lines = s.lines;
  ybase = s.ybase;
  ydisp = s.ydisp;
  x = s.x;
  y = s.y;
  scroll_top = s.scroll_top;
  scroll_bottom = s.scroll_bottom;
  tabs = s.tabs;
}

abbrev pub restore_screen : Saved → Screen → Screen
restore_screen n s = record s {
  lines = n.lines;
  ybase = n.ybase;
  ydisp = n.ydisp;
  x = n.x;
  y = n.y;
  scroll_top = n.scroll_top;
  scroll_bottom = n.scroll_bottom;
  tabs = n.tabs;
}

-- With the value of `this.normal`: the alternate screen is entered once.
unfoldable pub enter_with : Option Saved → Terminal → Terminal
enter_with (some n) t = t
enter_with none t = show_cursor (record (reset t) { normal = some (save_screen t.scr) })

unfoldable pub enter_alternate : Terminal → Terminal
enter_alternate t = enter_with t.normal t

unfoldable pub leave_with : Option Saved → Terminal → Terminal
leave_with none t = t
leave_with (some n) t =
    show_cursor
      (refresh 0 (t.scr.rows - 1) (record t { scr = restore_screen n t.scr; normal = none }))

unfoldable pub leave_alternate : Terminal → Terminal
leave_alternate t = leave_with t.normal t

-- `this.setgCharset(g, Terminal.charsets.US)` for the four sets
unfoldable pub designate_ascii : Charsets → Charsets
designate_ascii s =
    set_gcharset (some 3) ascii
      (set_gcharset (some 2) ascii (set_gcharset (some 1) ascii (set_gcharset (some 0) ascii s)))

unfoldable pub set_private : PrivateMode → ℕ → Terminal → Terminal
set_private cursor_keys p t = set_modes_of (λ m. record m { application_cursor = true }) t
set_private designate_us p t = record t { sets = designate_ascii t.sets }
set_private columns_132 p t = resize 132 t.scr.rows (record t { saved_cols = some t.scr.cols })
set_private origin p t = set_modes_of (λ m. record m { origin_mode = true }) t
set_private wraparound p t = set_modes_of (λ m. record m { wraparound_mode = true }) t
set_private mouse p t =
    set_modes_of
      (λ m. record m {
        x10_mouse = p == 9;
        vt200_mouse = p == 1000;
        normal_mouse = ltb 1000 p;
        mouse_events = true;
      })
      t
set_private focus_events p t = set_modes_of (λ m. record m { send_focus = true }) t
set_private utf p t = set_modes_of (λ m. record m { utf_mouse = true }) t
set_private sgr p t = set_modes_of (λ m. record m { sgr_mouse = true }) t
set_private urxvt p t = set_modes_of (λ m. record m { urxvt_mouse = true }) t
set_private visible_cursor p t = set_modes_of (λ m. record m { cursor_hidden = false }) t
set_private alternate_screen p t = enter_alternate t
set_private no_mode p t = t

-- `if (this.cols === 132 && this.savedCols) …`, with the value of `this.savedCols`
unfoldable pub restore_cols : Option ℕ → Terminal → Terminal
restore_cols none t = t
restore_cols (some c) t = if t.scr.cols == 132 then resize c t.scr.rows t else t

-- `delete this.savedCols;`
unfoldable pub leave_132 : Terminal → Terminal
leave_132 t = record (restore_cols t.saved_cols t) { saved_cols = none }

unfoldable pub reset_private : PrivateMode → Terminal → Terminal
reset_private cursor_keys t = set_modes_of (λ m. record m { application_cursor = false }) t
reset_private designate_us t = t
reset_private columns_132 t = leave_132 t
reset_private origin t = set_modes_of (λ m. record m { origin_mode = false }) t
reset_private wraparound t = set_modes_of (λ m. record m { wraparound_mode = false }) t
reset_private mouse t =
    set_modes_of
      (λ m. record m {
        x10_mouse = false;
        vt200_mouse = false;
        normal_mouse = false;
        mouse_events = false;
      })
      t
reset_private focus_events t = set_modes_of (λ m. record m { send_focus = false }) t
reset_private utf t = set_modes_of (λ m. record m { utf_mouse = false }) t
reset_private sgr t = set_modes_of (λ m. record m { sgr_mouse = false }) t
reset_private urxvt t = set_modes_of (λ m. record m { urxvt_mouse = false }) t
reset_private visible_cursor t = set_modes_of (λ m. record m { cursor_hidden = true }) t
reset_private alternate_screen t = leave_alternate t
reset_private no_mode t = t

abbrev pub question : List ℕ
question = b'?' ∷ []

-- `setMode(p)` for one parameter. The prefix is read anew for each: `reset` clears it.
unfoldable pub set_mode : ℕ → Terminal → Terminal
set_mode p t =
    if is_empty t.parser.prefix
    then (if p == 4 then set_modes_of (λ m. record m { insert_mode = true }) t else t)
    else if text_eq t.parser.prefix question
    then set_private (private_mode p) p t
    else t

unfoldable pub reset_mode : ℕ → Terminal → Terminal
reset_mode p t =
    if is_empty t.parser.prefix
    then (if p == 4 then set_modes_of (λ m. record m { insert_mode = false }) t else t)
    else if text_eq t.parser.prefix question
    then reset_private (private_mode p) t
    else t

-- The loops over the parameters.
unfoldable pub set_mode_all : List ℕ → Terminal → Terminal
set_mode_all [] t = t
set_mode_all (p ∷ ps) t = set_mode_all ps (set_mode p t)

unfoldable pub reset_mode_all : List ℕ → Terminal → Terminal
reset_mode_all [] t = t
reset_mode_all (p ∷ ps) t = reset_mode_all ps (reset_mode p t)

unfoldable pub soft_reset : Terminal → Terminal
soft_reset t = record t {
  modes = record (t.modes) {
    cursor_hidden = false;
    insert_mode = false;
    origin_mode = false;
    wraparound_mode = false;
    application_keypad = false;
    application_cursor = false;
  };
  scr = record (t.scr) {
    scroll_top = 0;
    scroll_bottom = t.scr.rows - 1;
    cur_attr = def_attr;
    x = 0;
    y = 0;
  };
  sets = record (t.sets) { charset = ascii; glevel = 0; charsets = ascii ∷ [] };
}
