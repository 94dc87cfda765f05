-- ===== src/Terminal/State.antt =====
-- The fields of `Terminal`, its constructor, `reset`, `resize`, `send`, `showCursor`, `bell`.
use genie_tangle.Prelude.{
  ℕ, suc, ◌-◌, Bool, true, false, List, [], ◌∷◌, ◌++◌, Option, none, if◌then◌else◌, push, is_empty,
  Outcome, ok, ◌>>=◌, type_error, fault, ◌+◌, not, ◌||◌,
}
use genie_tangle.Screen.{Screen, Row, rows_are_whole}
use genie_tangle.Screen.Size.{unset, construct}
use genie_tangle.Screen.Size as Size

-- The states of the parser.
pub data State : Type 0 where
  normal escaped csi osc charset dcs ignore : State

-- `Terminal.charsets`: all but the line drawing set are `null`.
pub data CharacterSet : Type 0 where
  ascii scld : CharacterSet

pub record Charsets : Type 0 where
  pub charset : CharacterSet
  pub gcharset : Option ℕ
  pub glevel : ℕ
  -- a place that was never written is `undefined`, which the code treats like `null`
  pub charsets : List CharacterSet

pub record Modes : Type 0 where
  pub application_keypad : Bool
  pub application_cursor : Bool
  pub origin_mode : Bool
  pub insert_mode : Bool
  pub wraparound_mode : Bool
  pub cursor_hidden : Bool
  pub convert_eol : Bool
  -- not set by the constructor; `undefined` reads as false
  pub x10_mouse : Bool
  pub vt200_mouse : Bool
  pub normal_mouse : Bool
  pub mouse_events : Bool
  pub send_focus : Bool
  pub utf_mouse : Bool
  pub sgr_mouse : Bool
  pub urxvt_mouse : Bool

-- `currentParam` holds a number in `csi` and at the start of `osc`, and a text in `dcs` and behind
-- the first `;` of `osc`. The model has a field for each; 0 and '' are the empty text.
pub record Parser : Type 0 where
  pub state : State
  pub params : List ℕ
  pub current_param : ℕ
  pub current_text : List ℕ
  pub prefix : List ℕ
  pub postfix : List ℕ

-- `this.normal`: what the alternate screen puts aside.
pub record Saved : Type 0 where
  pub lines : List Row
  pub ybase : ℕ
  pub ydisp : ℕ
  pub x : ℕ
  pub y : ℕ
  pub scroll_top : ℕ
  pub scroll_bottom : ℕ
  pub tabs : ℕ → Bool

-- What a call does outside the object, in order.
pub data Effect : Type 0 where
  -- `refresh(start, end)`
  repaint : ℕ → ℕ → Effect
  -- `handleTitle(title)`
  retitle : List ℕ → Effect
  -- the border of a visual bell, and `focus()`
  flash take_focus : Effect
  -- `handler(data)`
  output : List ℕ → Effect

pub record Io : Type 0 where
  pub queue : List ℕ
  -- the calls of `setTimeout` in `send` that are due
  pub timers : ℕ
  pub title : List ℕ
  pub effects : List Effect
  -- a call of `refresh` threw
  pub threw : Bool

pub record Terminal : Type 0 where
  pub scr : Screen
  pub sets : Charsets
  pub modes : Modes
  pub parser : Parser
  pub normal : Option Saved
  pub saved_cols : Option ℕ
  pub cursor_state : Bool
  pub io : Io

abbrev pub on_screen : (Screen → Screen) → Terminal → Terminal
on_screen f t = record t { scr = f t.scr }

abbrev pub try_screen : (Screen → Outcome Screen) → Terminal → Outcome Terminal
try_screen f t = f t.scr >>= λ s. ok (record t { scr = s })

abbrev pub set_state : State → Terminal → Terminal
set_state st t = record t { parser = record (t.parser) { state = st } }

abbrev pub effect : Effect → Terminal → Terminal
effect e t = record t { io = record (t.io) { effects = push t.io.effects e } }

-- The rows are made in `Rendering.Refresh`; here it counts whether making them throws. What the run
-- does after a throw has no meaning: the run settles to the fault.
unfoldable pub refresh : ℕ → ℕ → Terminal → Terminal
refresh start end t = record t {
  io = record (t.io) {
    effects = push t.io.effects (repaint start end);
    threw = t.io.threw || not (rows_are_whole (end + 1 - start) start t.scr);
  };
}

-- the end of a run: a `TypeError` where a `refresh` threw
unfoldable pub settle : Terminal → Outcome Terminal
settle t = if t.io.threw then fault type_error else ok t

unfoldable pub send : List ℕ → Terminal → Terminal
send text t = record t {
  io = record (t.io) {
    queue = t.io.queue ++ text;
    timers = if is_empty t.io.queue then suc t.io.timers else t.io.timers;
  };
}

-- The callback of the timer that `send` sets.
unfoldable pub flush : Terminal → Terminal
flush t = record t {
  io = record (t.io) {
    queue = [];
    timers = t.io.timers - 1;
    effects = push t.io.effects (output t.io.queue);
  };
}

unfoldable pub show_cursor : Terminal → Terminal
show_cursor t =
    if t.cursor_state then t else refresh t.scr.y t.scr.y (record t { cursor_state = true })

abbrev pub visual_bell : Bool
visual_bell = false

abbrev pub pop_on_bell : Bool
pop_on_bell = false

unfoldable pub bell : Terminal → Terminal
bell t =
    if visual_bell
    then (if pop_on_bell then effect take_focus (effect flash t) else effect flash t)
    else t

-- The constructor's assignments, on a new object and, by `Terminal.call(this, …)`, on an old one.
unfoldable pub initialise : ℕ → ℕ → Terminal → Terminal
initialise cols rows t = record t {
  scr = construct cols rows t.scr;
  sets = record { charset = ascii; gcharset = none; glevel = 0; charsets = ascii ∷ [] };
  modes = record (t.modes) {
    application_keypad = false;
    application_cursor = false;
    origin_mode = false;
    insert_mode = false;
    wraparound_mode = false;
    cursor_hidden = false;
    convert_eol = false;
  };
  parser = record {
    state = normal;
    params = [];
    current_param = 0;
    current_text = [];
    prefix = [];
    postfix = [];
  };
  normal = none;
  cursor_state = false;
  io = record (t.io) { queue = [] };
}

unfoldable pub reset : Terminal → Terminal
reset t = let u = initialise t.scr.cols t.scr.rows t in refresh 0 (u.scr.rows - 1) u

-- `resize`, with the other screen given up; where the `refresh` throws, so does the run, and the
-- other screen stays
unfoldable pub resize : ℕ → ℕ → Terminal → Terminal
resize x y t =
    let s = Size.resize x y t.scr in
    record (refresh 0 (s.rows - 1) (record t { scr = s })) { normal = none }

-- An object on which the constructor has not run.
abbrev pub blank_terminal : Terminal
blank_terminal = record {
  scr = unset;
  sets = record { charset = ascii; gcharset = none; glevel = 0; charsets = [] };
  modes = record {
    application_keypad = false;
    application_cursor = false;
    origin_mode = false;
    insert_mode = false;
    wraparound_mode = false;
    cursor_hidden = false;
    convert_eol = false;
    x10_mouse = false;
    vt200_mouse = false;
    normal_mouse = false;
    mouse_events = false;
    send_focus = false;
    utf_mouse = false;
    sgr_mouse = false;
    urxvt_mouse = false;
  };
  parser = record {
    state = normal;
    params = [];
    current_param = 0;
    current_text = [];
    prefix = [];
    postfix = [];
  };
  normal = none;
  saved_cols = none;
  cursor_state = false;
  io = record { queue = []; timers = 0; title = []; effects = []; threw = false };
}

-- `new Terminal(cols, rows)`
unfoldable pub new_terminal : ℕ → ℕ → Terminal
new_terminal cols rows = initialise cols rows blank_terminal
