-- ===== src/Mouse/Listeners.antt =====
-- The listeners of `bindMouse`: `sendButton`, `sendMove`, and what `mousedown` binds to the document.
use genie_tangle.Terminal.Keys.{scroll_view}
use genie_tangle.Terminal.{effect, take_focus, Terminal}
use genie_tangle.Screen.Scroll.{scroll_disp_down, scroll_disp_up}
use genie_tangle.Mouse.Reports.{Locators, send_event}
use genie_tangle.Mouse.Buttons.{
  wheel, EventType, mousemove, MouseEvent, get_coords, mousedown, get_button, mouseup, Position,
}
use genie_tangle.Prelude.{
  Bool, ◌+◌, some, if◌then◌else◌, none, false, if◌then◌else◌, true, not, ◌-◌, ◌||◌, if◌then◌else◌,
  zero, suc, ℕ, Option,
}

-- What the closures of `bindMouse` share, and the listeners that are bound to the document:
-- `sendMove`, which is bound once at most, and a listener `up` of each `mousedown`.
pub record Mouse : Type 0 where
  pub pressed : ℕ
  pub moving : Bool
  pub ups : ℕ

-- What does not change: the browser, and the two forms of reports that nothing switches on.
pub record Setting : Type 0 where
  pub msie : Bool
  pub locators : Locators

abbrev pub idle : Mouse
idle = record { pressed = 32; moving = false; ups = 0 }

-- `switch (ev.type)` of `sendButton`
unfoldable pub remember : EventType → ℕ → Mouse → Mouse
remember mousedown button m = record m { pressed = button }
remember mouseup button m = record m { pressed = 32 }
remember mousemove button m = m
remember wheel button m = m

-- with the position, which a browser without `pageX` does not give
abbrev pub button_sent :
    Setting → MouseEvent → Mouse → Terminal → Option Position → Mouse × Terminal
button_sent st ev m t none = (m, t)
button_sent st ev m t (some pos) =
    let button = get_button st.msie t ev in
    (remember ev.type button m, send_event st.locators button pos t)

unfoldable pub send_button : Setting → MouseEvent → Mouse × Terminal → Mouse × Terminal
send_button st ev (m, t) = button_sent st ev m t (get_coords t.scr ev)

abbrev pub move_sent : Setting → Mouse → Terminal → Option Position → Mouse × Terminal
move_sent st m t none = (m, t)
move_sent st m t (some pos) = (m, send_event st.locators (m.pressed + 32) pos t)

unfoldable pub send_move : Setting → MouseEvent → Mouse × Terminal → Mouse × Terminal
send_move st ev (m, t) = move_sent st m t (get_coords t.scr ev)

-- The listener of `mousedown` on the terminal. `focus()` is recorded, and not what it does: it has
-- been called before, by the listener that `open` binds.
unfoldable pub on_mousedown : Setting → MouseEvent → Mouse × Terminal → Mouse × Terminal
on_mousedown st ev (m, t) =
    if not t.modes.mouse_events
    then (m, t)
    else let (m1, t1) = send_button st ev (m, t) in
      let t2 = effect take_focus t1 in
      if t2.modes.vt200_mouse then send_button st (record ev { type = mouseup }) (m1, t2) else (
        record m1 {
          moving = if t2.modes.normal_mouse then true else m1.moving;
          ups = if t2.modes.x10_mouse then m1.ups else suc m1.ups;
        },
        t2,
      )

-- One listener `up`, which takes itself away.
unfoldable pub up : Setting → MouseEvent → Mouse × Terminal → Mouse × Terminal
up st ev (m, t) =
    let (m1, t1) = send_button st ev (m, t) in
    (
      record m1 { moving = if t1.modes.normal_mouse then false else m1.moving; ups = m1.ups - 1 },
      t1,
    )

-- The document's `mouseup`: the listeners that are bound when it comes.
unfoldable pub run_ups : ℕ → Setting → MouseEvent → Mouse × Terminal → Mouse × Terminal
run_ups zero st ev r = r
run_ups (suc n) st ev r = run_ups n st ev (up st ev r)

unfoldable pub on_mouseup : Setting → MouseEvent → Mouse × Terminal → Mouse × Terminal
on_mouseup st ev (m, t) = run_ups m.ups st ev (m, t)

-- The document's `mousemove`.
unfoldable pub on_mousemove : Setting → MouseEvent → Mouse × Terminal → Mouse × Terminal
on_mousemove st ev (m, t) = if m.moving then send_move st ev (m, t) else (m, t)

-- The first listener of the wheel: a report.
unfoldable pub report_wheel : Setting → MouseEvent → Mouse × Terminal → Mouse × Terminal
report_wheel st ev (m, t) =
    if not t.modes.mouse_events
    then (m, t)
    else if t.modes.x10_mouse || (st.locators.vt300_mouse || st.locators.dec_locator)
    then (m, t)
    else send_button st ev (m, t)

-- The second one: the view scrolls.
unfoldable pub scroll_wheel : MouseEvent → Terminal → Terminal
scroll_wheel ev t =
    if t.modes.mouse_events
    then t
    else if t.modes.application_keypad
    then t
    else scroll_view (if ev.wheel_up then scroll_disp_up 5 else scroll_disp_down 5) t

unfoldable pub on_wheel : Setting → MouseEvent → Mouse × Terminal → Mouse × Terminal
on_wheel st ev r = let (m, t) = report_wheel st ev r in (m, scroll_wheel ev t)

-- An event, to the listeners that it has.
unfoldable pub dispatch : EventType → Setting → MouseEvent → Mouse × Terminal → Mouse × Terminal
dispatch mousedown = on_mousedown
dispatch mouseup = on_mouseup
dispatch mousemove = on_mousemove
dispatch wheel = on_wheel

abbrev pub on_event : Setting → MouseEvent → Mouse × Terminal → Mouse × Terminal
on_event st ev r = dispatch ev.type st ev r
