-- ===== src/Tty/Events.antt =====
-- What may happen to the page, and the pages that come of it.
use genie_tangle.Mouse.Buttons.{MouseEvent, EventType, mousemove, mousedown, wheel, mouseup}
use genie_tangle.Terminal.{send}
use genie_tangle.Mouse.Listeners.{Setting, Mouse, on_event}
use genie_tangle.Prelude.{
  ◌≡◌, ok, Outcome, ℕ, none, length, [], List, Bool, ◌>>=◌, if◌then◌else◌, fault, type_error,
  if◌then◌else◌, if◌then◌else◌, ◌∷◌, ◌||◌, false,
}
use genie_tangle.Tty.State.{Tty, on_term, Tab}
use genie_tangle.Tty.Wheel.{tab_wheel}
use genie_tangle.Tty.Output.{page_key_down, page_key_press, tab_flush, run_tab}
use genie_tangle.Tty.Making.{create_window, create_tab, ready}
use genie_tangle.Tty.Ending.{tab_destroy, window_destroy}
use genie_tangle.Tty.Sizes.{maximize, on_page_resize}
use genie_tangle.Tty.Focus.{focus_on_tab, window_focus, window_focus_tab}
use genie_tangle.Tty.Socket.{receive, receive_kill, transport_up, transport_down, publish_failed}
use genie_tangle.Terminal.Keys.{KeyEvent, PressEvent}

-- The sizes are those that the page gives; for the mouse any listeners may be bound in the terminal.
pub data Event : Type 0 where
  opens_window : Event
  opens_tab : ℕ → Event
  is_ready : List ℕ → ℕ → Event
  receives : List ℕ → List ℕ → Event
  is_killed : List ℕ → Event
  goes_up : Event
  goes_down : Event
  fails : List ℕ → Event
  focuses_tab : ℕ → Event
  focuses_window : ℕ → Event
  steps : Bool → ℕ → Event
  ends_tab : ℕ → Event
  ends_window : ℕ → Event
  maximizes : ℕ → ℕ → ℕ → Event
  page_resizes : (ℕ → ℕ × ℕ) → Event
  key_goes_down : Bool → KeyEvent → Event
  key_is_pressed : PressEvent → Event
  wheel_turns : Bool → Bool → ℕ → Event
  timer_runs : ℕ → Event
  pastes : List ℕ → ℕ → Event
  uses_mouse : Setting → MouseEvent → Mouse → ℕ → Event

-- The listener of `mousedown` that `open` binds to the element runs before that of `bindMouse`.
abbrev pub focus_first : EventType → ℕ → Tty → Tty
focus_first mousedown i p = focus_on_tab i p
focus_first mouseup i p = p
focus_first mousemove i p = p
focus_first wheel i p = p

abbrev pub respond : Event → Tty → Outcome Tty
respond opens_window p = ok (create_window p)
respond (opens_tab w) p = ok (create_tab w p)
respond (is_ready id i) p = ok (ready id i p)
respond (receives id text) p = receive id text p
respond (is_killed id) p = ok (receive_kill id p)
respond goes_up p = ok (transport_up p)
respond goes_down p = ok (transport_down p)
respond (fails id) p = publish_failed id p
respond (focuses_tab i) p = ok (focus_on_tab i p)
respond (focuses_window w) p = ok (window_focus w p)
respond (steps next w) p = ok (window_focus_tab next w p)
respond (ends_tab i) p = ok (tab_destroy i p)
respond (ends_window w) p = ok (window_destroy w p)
respond (maximizes cols rows w) p = ok (maximize cols rows w p)
respond (page_resizes size) p = ok (on_page_resize size (length p.windows) p)
respond (key_goes_down mac ev) p = page_key_down mac ev p
respond (key_is_pressed ev) p = page_key_press ev p
respond (wheel_turns mac turned_up i) p = tab_wheel mac turned_up i p
respond (timer_runs i) p = tab_flush i p
respond (pastes text i) p = ok (on_term i (send text) p)
respond (uses_mouse st ev m i) p =
    run_tab i (λ t. ok (on_event st ev (m, t)).1) (focus_first ev.type i p)

-- a `refresh` of some tab threw
abbrev pub has_thrown : List Tab → Bool
has_thrown [] = false
has_thrown (t ∷ ts) = t.term.io.threw || has_thrown ts

-- What an event leaves: a `TypeError` where a `refresh` threw on the way.
abbrev pub happen : Event → Tty → Outcome Tty
happen e p = respond e p >>= λ q. if has_thrown q.tabs then fault type_error else ok q

-- The page before `tty.open` makes its first window.
abbrev pub empty_page : Tty
empty_page = record {
  tabs = [];
  frames = [];
  windows = [];
  terms = [];
  focus = none;
  published = [];
}

-- The pages that events lead to from the page `p`, as long as none of them throws.
pub data Reached (p : Tty) : Tty → Type 0 where
  at_first : Reached p p
  after : (q r : Tty) (e : Event) → Reached p q → happen e q ≡ ok r → Reached p r
