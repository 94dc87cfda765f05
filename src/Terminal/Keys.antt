-- ===== src/Terminal/Keys.antt =====
-- `keyDown` and `keyPress`: what a key sends, or how far it scrolls the view. Left out are the events
-- `keydown`, `key` and `keypress`, which are emitted before the text is handed over, and `cancel`.
use genie_tangle.Screen.{Screen}
use genie_tangle.Terminal.State.{output, effect, refresh, show_cursor, on_screen, Terminal}
use genie_tangle.Screen.Scroll.{scroll_disp_down, scroll_disp_up}
use genie_tangle.Prelude.{
  ◌==◌, leb, some, ◌+◌, decimal, if◌then◌else◌, ◌||◌, ℕ, if◌then◌else◌, Bool, not, Option, [], suc,
  ◌∷◌, ◌-◌, zero, none, List, if◌then◌else◌, codes, ◌&&◌,
}

-- The fields of the browser's event that `keyDown` reads.
pub record KeyEvent : Type 0 where
  pub key_code : ℕ
  pub shift_key : Bool
  pub ctrl_key : Bool
  pub alt_key : Bool
  pub meta_key : Bool

-- What a key does.
pub data KeyAction : Type 0 where
  view_up view_down : ℕ → KeyAction
  typed : List ℕ → KeyAction
  untyped : KeyAction

-- ESC and a text
abbrev pub sequence : List ℕ → KeyAction
sequence text = typed (27 ∷ text)

-- the keys with the control key, in the `default` case
unfoldable pub control_key : ℕ → KeyAction
control_key k =
    if leb 65 k && leb k 90
    then typed ((k - 64) ∷ [])
    else if k == 32
    then typed (0 ∷ [])
    else if leb 51 k && leb k 55
    then typed ((k - 51 + 27) ∷ [])
    else if k == 56
    then typed (127 ∷ [])
    else if k == 219
    then typed (27 ∷ [])
    else if k == 221
    then typed (29 ∷ [])
    else untyped

-- the keys with the alt key, or on a Mac the meta key
unfoldable pub alt_key_action : ℕ → KeyAction
alt_key_action k =
    if leb 65 k && leb k 90
    then sequence ((k + 32) ∷ [])
    else if k == 192
    then sequence (b'`' ∷ [])
    else if leb 48 k && leb k 57
    then sequence (decimal (k - 48))
    else untyped

-- F1 to F12, and then the `default` case; `mac` is `isMac`
unfoldable pub function_key : Bool → KeyEvent → KeyAction
function_key mac ev =
    let k = ev.key_code in
    if k == 112
    then sequence (codes "OP")
    else if k == 113
    then sequence (codes "OQ")
    else if k == 114
    then sequence (codes "OR")
    else if k == 115
    then sequence (codes "OS")
    else if k == 116
    then sequence (codes "[15~")
    else if k == 117
    then sequence (codes "[17~")
    else if k == 118
    then sequence (codes "[18~")
    else if k == 119
    then sequence (codes "[19~")
    else if k == 120
    then sequence (codes "[20~")
    else if k == 121
    then sequence (codes "[21~")
    else if k == 122
    then sequence (codes "[23~")
    else if k == 123
    then sequence (codes "[24~")
    else if ev.ctrl_key
    then control_key k
    else if (not mac && ev.alt_key) || (mac && ev.meta_key)
    then alt_key_action k
    else untyped

-- `switch (ev.keyCode)` up to the function keys
unfoldable pub key_action : Bool → KeyEvent → Terminal → KeyAction
key_action mac ev t =
    let k = ev.key_code in
    let application = t.modes.application_cursor in
    if k == 8
    then typed ((if ev.shift_key then 8 else 127) ∷ [])
    else if k == 9
    then (if ev.shift_key then sequence (codes "[Z") else typed (9 ∷ []))
    else if k == 13
    then typed (13 ∷ [])
    else if k == 27
    then typed (27 ∷ [])
    else if k == 37
    then sequence (if application then codes "OD" else codes "[D")
    else if k == 39
    then sequence (if application then codes "OC" else codes "[C")
    else if k == 38
    then (if application
        then sequence (codes "OA")
        else if ev.ctrl_key
        then view_up 1
        else sequence (codes "[A"))
    else if k == 40
    then (if application
        then sequence (codes "OB")
        else if ev.ctrl_key
        then view_down 1
        else sequence (codes "[B"))
    else if k == 46
    then sequence (codes "[3~")
    else if k == 45
    then sequence (codes "[2~")
    else if k == 36
    then sequence (codes "OH")
    else if k == 35
    then sequence (codes "OF")
    else if k == 33
    then (if ev.shift_key then view_up (t.scr.rows - 1) else sequence (codes "[5~"))
    else if k == 34
    then (if ev.shift_key then view_down (t.scr.rows - 1) else sequence (codes "[6~"))
    else function_key mac ev

-- `this.handler(key)`, at once and not by the queue
unfoldable pub hand_over : List ℕ → Terminal → Terminal
hand_over text t = effect (output text) (show_cursor t)

-- `scrollDisp` with its repaint
abbrev pub scroll_view : (Screen → Screen) → Terminal → Terminal
scroll_view f t = let u = on_screen f t in refresh 0 (u.scr.rows - 1) u

unfoldable pub act : KeyAction → Terminal → Terminal
act (view_up n) t = scroll_view (scroll_disp_up n) t
act (view_down n) t = scroll_view (scroll_disp_down n) t
act (typed text) t = hand_over text t
act untyped t = t

unfoldable pub key_down : Bool → KeyEvent → Terminal → Terminal
key_down mac ev t = act (key_action mac ev t) t

-- The fields that `keyPress` reads; `charCode` and `which` may be missing.
pub record PressEvent : Type 0 where
  pub char_code : Option ℕ
  pub which : Option ℕ
  pub pressed_code : ℕ
  pub with_ctrl : Bool
  pub with_alt : Bool
  pub with_meta : Bool

-- The key, or 0.
unfoldable pub pressed : Option ℕ → Option ℕ → ℕ → ℕ
pressed (some (suc c)) which code = suc c
pressed none none code = code
pressed (some zero) none code = code
pressed none (some w) code = w
pressed (some zero) (some w) code = 0

unfoldable pub key_press : PressEvent → Terminal → Terminal
key_press ev t =
    let key = pressed ev.char_code ev.which ev.pressed_code in
    if key == 0 || ev.with_ctrl || ev.with_alt || ev.with_meta then t else hand_over (key ∷ []) t
