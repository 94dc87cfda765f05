-- ===== src/Tests/Mice.antt =====
-- The theorems on the mouse, at clicks on a small screen.

use genie_tangle.Tests.Samples.{sample, sample_terminal}
use genie_tangle.Mouse.Reader.{read_sgr}
use genie_tangle.Terminal.{Terminal}
use genie_tangle.Mouse.Buttons.{get_coords, MouseEvent, at, Position, get_button, clamp}
use genie_tangle.Mouse.Clicks.{
  wheel_turn, event-heard, control_click-wheel, heard_as, control_click,
}
use genie_tangle.Mouse.Reports.{no_locators, sgr_report, report}
use genie_tangle.Mouse.Tracking.{move-leaks}
use genie_tangle.Mouse.Heard.{report-heard, has_127}
use genie_tangle.Mouse.Listeners.{Setting, on_mouseup, idle, send_button}
use genie_tangle.Prelude.{
  true, Bool, [], false, ◌≡◌, refl, some, ◌∷◌, arith, none, if◌then◌else◌, ℕ, if◌then◌else◌,
  if◌then◌else◌,
}

abbrev setting : Setting
setting = record { msie = false; locators = no_locators }

abbrev click : MouseEvent
click = record (control_click (at 1) (at 2)) { ctrl_key = false }

-- The terminal in a mode of tracking.
abbrev tracking : Bool → Bool → Bool → Terminal
tracking vt200 normal utf8 = record sample_terminal {
  modes = record (sample_terminal.modes) {
    mouse_events = true;
    vt200_mouse = vt200;
    normal_mouse = normal;
    utf_mouse = utf8;
  };
}

abbrev place : Position
place = record { x = 33; y = 34 }

there : (t : Terminal) → t.scr ≡ sample → get_coords t.scr click ≡ some place
unfolding get_coords clamp
there t e = rw e refl

report-heard_example :
    read_sgr (sgr_report 35 place)
    ≡ some (record { button = 32; column = 1; row = 2; letter = b'm' ∷ [] })
report-heard_example = (report-heard 35 place).0

-- The button of the click.
abbrev clicked : ℕ
clicked = get_button false (tracking false true true) click

event-heard_example : heard_as (report no_locators (tracking false true true) clicked place) ≡ (
    if has_127 clicked place
    then none
    else some (record { button = clicked; column = 33; row = 34; letter = [] }))
event-heard_example =
    event-heard false click (tracking false true true) place refl refl refl (omega arith)
      (omega arith) (record { button_in = omega arith; which_in = omega arith })
      (there (tracking false true true) refl)

control_click-wheel_example :
    (send_button setting (control_click (at 1) (at 2)) (idle, tracking true false false)).1
    ≡ (send_button setting (wheel_turn (at 1) (at 2)) (idle, tracking true false false)).1
control_click-wheel_example =
    control_click-wheel setting (at 1) (at 2) idle (tracking true false false) refl

move-leaks_example :
    (on_mouseup setting click (record idle { moving = true; ups = 1 }, sample_terminal)).0.moving
    ≡ true
move-leaks_example =
    (move-leaks setting click click place (record idle { moving = true; ups = 1 }) sample_terminal
      refl refl (there sample_terminal refl)).1
