-- ===== src/Tests/Pages.antt =====
-- The theorems on the page of windows, at two windows and three tabs.
use genie_tangle.Screen.Size.{construct}
use genie_tangle.Tty.Titles.{set_process_name, handle_title}
use genie_tangle.Screen.Tabs.{prev_stop, setup_stops, mark_stops, prev_stop_from}
use genie_tangle.Terminal.{show_cursor, initialise, new_terminal, refresh, send}
use genie_tangle.Windows.{sanitize, add_tab}
use genie_tangle.Tty.Making.{create_window, enlist, create_tab, open_tab}
use genie_tangle.Tty.Events.{at_first, empty_page, opens_window, after, happen, has_thrown}
use genie_tangle.Tty.Wheel.{tab_wheel}
use genie_tangle.Tty.Reached.{first_page, tab_wheel-reached}
use genie_tangle.Tests.Samples.{sample_terminal, sample_terminal-IsSound}
use genie_tangle.Tty.Focus.{
  focus_on_tab, tab_focus, switch_to, blur, terminal_focus, gain, window_focus,
}
use genie_tangle.Tty.Callbacks.{fayep, fayec, Callbacks}
use genie_tangle.Tty.Screens.{Follows, tab_write-Follows}
use genie_tangle.Tty.Resized.{window_resize-IsSized, maximize-twice}
use genie_tangle.Tty.Output.{tab_write, tab_key_down}
use genie_tangle.Tty.Ending.{tab_destroy}
use genie_tangle.Tty.Registered.{receive-registered, publish_failed-fault}
use genie_tangle.Tty.Socket.{receive, publish_failed}
use genie_tangle.Tty.Replies.{fayec-once, Call, replies, run_calls, registers}
use genie_tangle.Terminal.Keys.{key_action, KeyEvent, PressEvent}
use genie_tangle.Tty.Typed.{messages, tab_key_down-published}
use genie_tangle.Tty.Focused.{focus_on_tab-focus}
use genie_tangle.Tty.Sizes.{maximize, window_resize}
use genie_tangle.Tty.{no_frame, Tty, Tab, frame_of, no_tab, tab_of}
use genie_tangle.Terminal.Write.{write}
use genie_tangle.Screen.{at_least_one, rows_are_whole, blank_line, row_is_whole, whole_cells}
use genie_tangle.Prelude.{
  true, Ends, arith, [], codes, false, ok, List, ◌≡◌, ℕ, refl, some, ◌∷◌, type_error, fault, none,
  ◌<◌,
}

-- A tab of a window, with its terminal on the small screen.
abbrev tab_in : ℕ → List ℕ → Tab
tab_in w id = record no_tab { window = w; id = id; pty = true; term = sample_terminal }

-- The first window has two tabs and the second one has one, which has the focus.
abbrev page : Tty
page = record {
  tabs = tab_in 0 (codes "a") ∷ tab_in 0 (codes "b") ∷ tab_in 1 (codes "c") ∷ [];
  frames =
      record no_frame { inner = record { tabs = 0 ∷ 1 ∷ []; focused = some 1 } }
      ∷ record no_frame { inner = record { tabs = 2 ∷ []; focused = some 2 } }
      ∷ [];
  windows = 0 ∷ 1 ∷ [];
  terms = (codes "a", 0) ∷ (codes "b", 1) ∷ (codes "c", 2) ∷ [];
  focus = some 2;
  published = [];
}

focus_on_tab-focus_example : (focus_on_tab 0 page).focus ≡ some 0
focus_on_tab-focus_example = (focus_on_tab-focus 3 0 page (omega arith)).1

receive-registered_example :
    receive (codes "b") (codes "x") (tab_destroy 1 page) ≡ ok (tab_destroy 1 page)
receive-registered_example = (receive-registered (codes "b") (codes "x") 0 1 page refl).1

-- One callback waits.
abbrev waiting : Callbacks
waiting = record { next = 4; waiting = (2, 9) ∷ [] }

-- Another callback is registered, and the one that waited is called.
abbrev between : List Call
between = registers 8 ∷ replies 2 ∷ []

fayec-once_example : (fayec 4 (run_calls between (fayep 7 waiting).1)).0 ≡ some 7
unfolding fayep
fayec-once_example = (fayec-once 7 2 between waiting (omega arith, tt) (refl, tt)).1

-- The key `A`, typed with the control key.
abbrev control_a : KeyEvent
control_a = record {
  key_code = 65;
  shift_key = false;
  ctrl_key = true;
  alt_key = false;
  meta_key = false;
}

tab_key_down-published_example :
    Ends
      (λ q. q.published ≡ messages (codes "c") (key_action false control_a sample_terminal))
      (tab_key_down false control_a 2 page)
tab_key_down-published_example = tab_key_down-published false control_a 2 page refl

tab_write-Follows_example :
    Follows 1 page (write (codes "x") sample_terminal) (tab_write (codes "x") 1 page)
tab_write-Follows_example = tab_write-Follows (codes "x") 1 page (omega arith) refl

window_resize-IsSized_example :
    ((tab_of 1 (window_resize 5 4 0 page)).term.scr.cols ≡ at_least_one 5)
    × ((tab_of 1 (window_resize 5 4 0 page)).term.scr.rows ≡ at_least_one 4)
window_resize-IsSized_example =
    (window_resize-IsSized 5 4 0 page (
      (omega arith, sample_terminal-IsSound, saved),
      ((omega arith, sample_terminal-IsSound, saved), tt),
    )).1.0.0
  where
    saved : 2 < at_least_one 4
    saved = unfold at_least_one in omega arith

maximize-twice_example : (frame_of 0 (maximize 8 9 0 (maximize 7 6 0 page))).cols ≡ 3
maximize-twice_example = (maximize-twice 7 6 8 9 0 page (omega arith) refl).0

publish_failed-fault_example : publish_failed (codes "b") (tab_destroy 1 page) ≡ fault type_error
publish_failed-fault_example = publish_failed-fault 1 page refl

first_page-calm : has_thrown first_page.tabs ≡ false
unfolding create_window window_focus create_tab enlist set_process_name open_tab tab_focus
    terminal_focus handle_title switch_to add_tab gain show_cursor refresh new_terminal initialise
    rows_are_whole construct blank_line row_is_whole whole_cells mark_stops prev_stop prev_stop_from
    setup_stops send blur sanitize
first_page-calm = refl

first_page-reached : happen opens_window empty_page ≡ ok first_page
first_page-reached = rw first_page-calm refl

tab_wheel-reached_example : tab_wheel false true 0 first_page ≡ ok first_page
tab_wheel-reached_example =
    tab_wheel-reached false true 0 first_page
      (after empty_page first_page opens_window at_first first_page-reached)

-- The character `a`.
abbrev pressed_a : PressEvent
pressed_a = record {
  char_code = some 97;
  which = none;
  pressed_code = 0;
  with_ctrl = false;
  with_alt = false;
  with_meta = false;
}

-- The only tab is destroyed, and its window with it.
abbrev last_page : Tty
last_page = tab_destroy 0 first_page
