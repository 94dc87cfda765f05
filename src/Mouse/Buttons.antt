-- ===== src/Mouse/Buttons.antt =====
-- `getButton` and `getCoords`: what an event of the browser says. `addEventListener` and the layout of
-- the page are the browser's: an event carries the column and the row that `pageX`, `pageY`, the
-- offsets and the size of the element give, `((x / w) * cols) | 0` and `((y / h) * rows) | 0`.
use genie_tangle.Terminal.{Terminal}
use genie_tangle.Screen.{Screen}
use genie_tangle.Prelude.{
  Bool, ◌+◌, some, if◌then◌else◌, none, Option, ◌*◌, if◌then◌else◌, ◌-◌, ltb, suc, ◌==◌,
  if◌then◌else◌, ℕ,
}

-- `ev.type`; the two kinds of a wheel event are one, as `wheelEvent` names the browser's.
pub data EventType : Type 0 where
  mousedown mouseup mousemove wheel : EventType

-- A column or a row as computed; one left of the element or above it is negative.
pub data Offset : Type 0 where
  negative : Offset
  at : ℕ → Offset

pub record MouseEvent : Type 0 where
  pub type : EventType
  -- `null` where the browser has none
  pub button : Option ℕ
  pub which : Option ℕ
  -- `detail < 0` or `wheelDeltaY > 0`
  pub wheel_up : Bool
  pub shift_key : Bool
  pub meta_key : Bool
  pub ctrl_key : Bool
  -- whether there is a `pageX`
  pub has_page : Bool
  pub column : Offset
  pub row : Offset

-- The button of `mousedown` plus one, since `ev.which - 1` may be -1; `null` adds 0 to a number.
unfoldable pub pressed_button : Option ℕ → Option ℕ → ℕ
pressed_button (some b) which = suc b
pressed_button none (some w) = w
pressed_button none none = 1

-- The numbers of the Internet Explorer, again plus one.
unfoldable pub explorer_button : Bool → ℕ → ℕ
explorer_button msie b = if msie then (if b == 2 then 1 else if b == 5 then 2 else b) else b

-- `switch (ev.type)`, plus one; `button` stays undefined for a move, which `getButton` never sees
unfoldable pub button_of : Bool → EventType → Option ℕ → Option ℕ → Bool → ℕ
button_of msie mousedown button which wheel_up = explorer_button msie (pressed_button button which)
button_of msie mouseup button which wheel_up = 4
button_of msie mousemove button which wheel_up = 1
button_of msie wheel button which wheel_up = if wheel_up then 65 else 66

abbrev pub raw_button : Bool → MouseEvent → ℕ
raw_button msie ev = button_of msie ev.type ev.button ev.which ev.wheel_up

-- `shift | meta | ctrl`, and what the tracking mode leaves of it
unfoldable pub modifiers : Terminal → MouseEvent → ℕ
modifiers t ev =
    let shift = if ev.shift_key then 4 else 0 in
    let meta = if ev.meta_key then 8 else 0 in
    let ctrl = if ev.ctrl_key then 16 else 0 in
    if t.modes.vt200_mouse then ctrl else if t.modes.normal_mouse then shift + meta + ctrl else 0

-- `(32 + (mod << 2)) + button`
unfoldable pub get_button : Bool → Terminal → MouseEvent → ℕ
get_button msie t ev = 32 + modifiers t ev * 4 + raw_button msie ev - 1

-- `if (x < 0) x = 0; if (x > cols) x = cols; x += 32;`
unfoldable pub clamp : ℕ → Offset → ℕ
clamp limit negative = 32
clamp limit (at x) = (if ltb limit x then limit else x) + 32

pub record Position : Type 0 where
  pub x : ℕ
  pub y : ℕ

unfoldable pub get_coords : Screen → MouseEvent → Option Position
get_coords s ev =
    if ev.has_page
    then some (record { x = clamp s.cols ev.column; y = clamp s.rows ev.row })
    else none
