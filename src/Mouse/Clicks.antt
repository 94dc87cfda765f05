-- ===== src/Mouse/Clicks.antt =====
-- The numbers of a report: their bounds, and what an event is reported as.

use genie_tangle.Screen.{Screen}
use genie_tangle.Mouse.Bytes.{encode}
use genie_tangle.Terminal.{Terminal}
use genie_tangle.Mouse.Reader.{on_some, read_bytes, Heard}
use genie_tangle.Mouse.Listeners.{Mouse, send_button, Setting}
use genie_tangle.Mouse.Heard.{byte_report-heard, has_127}
use genie_tangle.Mouse.Reports.{byte_report, no_locators, report, send_event}
use genie_tangle.Prelude.{
  ltb, some, Bool-cases, false, ap, Option, All, inr, ℕ, subst, Bool, ◌||◌, ◌≡◌, refl,
  if◌then◌else◌, inl, ◌+◌, arith, ◌++◌, if◌then◌else◌, none, ◌==◌, All-append, List, [], true, ◌<◌,
  if-both, ◌≤◌, if◌then◌else◌, ◌∙◌,
}
use genie_tangle.Mouse.Buttons.{
  modifiers, MouseEvent, mousedown, negative, explorer_button, Offset, button_of, mousemove, wheel,
  mouseup, get_coords, get_button, EventType, at, Position, clamp, pressed_button,
}
use mathlib.Core.Option.{some-injective}

encode-bound : (ch : ℕ) → All (λ b. b < 128) (encode false ch) × All (λ b. b < 256) (encode true ch)
unfolding encode
encode-bound ch = (
  if-both (All (λ b. b < 128)) (ch == 255) (omega arith, tt) (ground arith, tt),
  elim (Bool-cases (ch == 2047)) [
    | inl e ↦ rw e (omega arith, tt)
    | inr e ↦ elim (Bool-cases (ltb ch 127)) [
      | inl f ↦ rw (e, f) (ground arith, tt)
      | inr f ↦ rw (e, f) (ground arith, (ground arith, tt))
    ]
  ],
)

three_bound :
    (n : ℕ) (a b c : List ℕ)
    → All (λ k. k < n) a
    → All (λ k. k < n) b
    → All (λ k. k < n) c
    → All (λ k. k < n) (a ++ (b ++ c))
three_bound n a b c h k l = All-append (λ k. k < n) a (b ++ c) h (All-append (λ k. k < n) b c k l)

-- Every code of a report in bytes is below 128, and in UTF-8 below 256: no number of the report leaves
-- the byte that it is sent as, whatever the button and the position.
byte_report-bound :
    (button : ℕ) (pos : Position)
    → All (λ b. b < 128) (byte_report false button pos)
      × All (λ b. b < 256) (byte_report true button pos)
unfolding byte_report
byte_report-bound button pos = (
  (
    omega arith,
    (
      omega arith,
      (
        omega arith,
        three_bound 128 (encode false button) (encode false pos.x) (encode false pos.y)
            (encode-bound button).0 (encode-bound pos.x).0 (encode-bound pos.y).0,
      ),
    ),
  ),
  (
    omega arith,
    (
      omega arith,
      (
        omega arith,
        three_bound 256 (encode true button) (encode true pos.x) (encode true pos.y)
            (encode-bound button).1 (encode-bound pos.x).1 (encode-bound pos.y).1,
      ),
    ),
  ),
)

clamp-bound : (limit : ℕ) (o : Offset) → (32 ≤ clamp limit o) × (clamp limit o ≤ limit + 32)
unfolding clamp
clamp-bound limit negative = omega arith
clamp-bound limit (at x) = ground arith

of_page : (b : Bool) (p pos : Position) → (if b then some p else none) ≡ some pos → p ≡ pos
of_page true p pos e = some-injective _ _ e
of_page false p pos e = cc

get_coords-bound :
    (s : Screen) (ev : MouseEvent) (pos : Position)
    → get_coords s ev ≡ some pos
    → (pos.x ≤ s.cols + 32) × (pos.y ≤ s.rows + 32)
unfolding get_coords
get_coords-bound s ev pos e =
    subst (λ (p : Position). (p.x ≤ s.cols + 32) × (p.y ≤ s.rows + 32))
      (of_page ev.has_page _ pos e)
      ((clamp-bound s.cols ev.column).1, (clamp-bound s.rows ev.row).1)

-- Left, middle and right: 0 to 2 for `button`, 1 to 3 for `which`, where 0 stands for no button.
abbrev IsBelow : ℕ → Option ℕ → Type 0
IsBelow n none = Unit {0}
IsBelow n (some b) = b < n

pub record HasButton (ev : MouseEvent) : Type 0 where
  pub button_in : IsBelow 3 ev.button
  pub which_in : IsBelow 4 ev.which

modifiers-bound : (t : Terminal) (ev : MouseEvent) → modifiers t ev ≤ 28
unfolding modifiers
modifiers-bound t ev = ground arith

pressed_button-bound : (b w : Option ℕ) → IsBelow 3 b → IsBelow 4 w → pressed_button b w ≤ 3
unfolding pressed_button
pressed_button-bound (some b) w h k = omega (arith, h)
pressed_button-bound none (some w) h k = omega (arith, k)
pressed_button-bound none none h k = omega arith

button_of-bound :
    (msie : Bool) (kind : EventType) (b w : Option ℕ) (turn : Bool)
    → IsBelow 3 b
    → IsBelow 4 w
    → button_of msie kind b w turn ≤ 66
unfolding button_of explorer_button
button_of-bound msie mousedown b w turn h k = ground (arith, pressed_button-bound b w h k)
button_of-bound msie mouseup b w turn h k = omega arith
button_of-bound msie mousemove b w turn h k = omega arith
button_of-bound msie wheel b w turn h k = ground arith

get_button-bound :
    (msie : Bool) (t : Terminal) (ev : MouseEvent) → HasButton ev → get_button msie t ev < 210
unfolding get_button
get_button-bound msie t ev h = omega (
  arith,
  modifiers-bound t ev,
  button_of-bound msie ev.type ev.button ev.which ev.wheel_up h.button_in h.which_in,
)

-- A report in bytes, if there is one, as a program reads it.
abbrev pub heard_as : Option (List ℕ) → Option Heard
heard_as o = on_some o read_bytes

in_bytes :
    (b : ℕ) (t : Terminal) (pos : Position)
    → t.modes.urxvt_mouse ≡ false
    → t.modes.sgr_mouse ≡ false
    → t.modes.utf_mouse ≡ true
    → report no_locators t b pos ≡ some (byte_report true b pos)
unfolding report
in_bytes b t pos u s f = rw (u, s, f) refl

-- In the form with UTF-8, on a screen of at most 2014 columns and rows, a program that reads the report
-- of an event as UTF-8 gets just the button and the position that were computed, wherever the event
-- lies and whatever keys are held, unless one of the three numbers is 127, as it is in the column
-- and the row 95; then what is sent is no UTF-8, and the program reads nothing.
pub event-heard :
    (msie : Bool) (ev : MouseEvent) (t : Terminal) (pos : Position)
    → t.modes.urxvt_mouse ≡ false
    → t.modes.sgr_mouse ≡ false
    → t.modes.utf_mouse ≡ true
    → t.scr.cols ≤ 2014
    → t.scr.rows ≤ 2014
    → HasButton ev
    → get_coords t.scr ev ≡ some pos
    → heard_as (report no_locators t (get_button msie t ev) pos) ≡ (
        if has_127 (get_button msie t ev) pos
        then none
        else some
            (record { button = get_button msie t ev; column = pos.x; row = pos.y; letter = [] }))
event-heard msie ev t pos u s f c r h e =
    let b = get_button-bound msie t ev h in
    let (x, y) = get_coords-bound t.scr ev pos e in
    ap heard_as (in_bytes (get_button msie t ev) t pos u s f)
    ∙ byte_report-heard (get_button msie t ev) pos (omega (arith, b)) (omega (arith, x, c))
        (omega (arith, y, r))

-- A left click with the control key, and the wheel turned up, at one place.
abbrev pub control_click : Offset → Offset → MouseEvent
control_click x y = record {
  type = mousedown;
  button = some 0;
  which = some 1;
  wheel_up = false;
  shift_key = false;
  meta_key = false;
  ctrl_key = true;
  has_page = true;
  column = x;
  row = y;
}

abbrev pub wheel_turn : Offset → Offset → MouseEvent
wheel_turn x y = record {
  type = wheel;
  button = none;
  which = none;
  wheel_up = true;
  shift_key = false;
  meta_key = false;
  ctrl_key = false;
  has_page = true;
  column = x;
  row = y;
}

one_button :
    (msie : Bool) (x y : Offset) (t : Terminal)
    → (t.modes.vt200_mouse || t.modes.normal_mouse) ≡ true
    → get_button msie t (control_click x y) ≡ get_button msie t (wheel_turn x y)
unfolding get_button modifiers button_of explorer_button pressed_button
one_button msie x y t h = ground arith

-- In the two modes that report modifiers, `sendButton` for a left click with the control key leaves the
-- terminal just as `sendButton` for the wheel turned up at that place does: the same text is queued
-- for both, in every form of the report.
pub control_click-wheel :
    (st : Setting) (x y : Offset) (m : Mouse) (t : Terminal)
    → (t.modes.vt200_mouse || t.modes.normal_mouse) ≡ true
    → (send_button st (control_click x y) (m, t)).1 ≡ (send_button st (wheel_turn x y) (m, t)).1
unfolding send_button get_coords
control_click-wheel st x y m t h =
    ap
      (λ (b : ℕ).
        send_event st.locators b (record { x = clamp t.scr.cols x; y = clamp t.scr.rows y }) t)
      (one_button st.msie x y t h)
