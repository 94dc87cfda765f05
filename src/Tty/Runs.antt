-- ===== src/Tty/Runs.antt =====
-- Properties of the page that the changes of the code keep, on events.
use genie_tangle.Mouse.Buttons.{mousedown, EventType, mousemove, wheel, mouseup}
use genie_tangle.Prelude.{
  Bool, not, ◌>>=◌, if◌then◌else◌, [], none, subst, drop, if◌then◌else◌, ◌∷◌, Option, true, ℕ, List,
  if-both, Outcome, length, some, ok, fault, if◌then◌else◌, refl, type_error,
}
use genie_tangle.Tty.Kept.{
  IsClosed, on_term-keeps, publish-keeps, connected-keeps, disconnected-keeps, titled-keeps,
  focus_on_tab-keeps, window_focus-keeps, focus_tab-keeps, maximize-keeps, page_resize-keeps,
}
use genie_tangle.Tty.State.{Tty, tab_of, on_tab, on_term, holds_focus, input}
use genie_tangle.Tty.Titles.{connected, disconnected}
use genie_tangle.Tty.Loops.{for_some-keeps}
use genie_tangle.Tty.Wheel.{scrollable, tab_wheel, page_key}
use genie_tangle.Tty.Events.{
  Event, happen, Reached, at_first, after, goes_up, timer_runs, is_killed, focuses_window,
  ends_window, maximizes, fails, ends_tab, wheel_turns, focuses_tab, key_goes_down, is_ready,
  page_resizes, steps, receives, key_is_pressed, opens_window, goes_down, opens_tab, pastes,
  uses_mouse, has_thrown, respond, focus_first,
}
use genie_tangle.Tty.Output.{
  perform, perform_all, run_tab, tab_write, tab_key_down, page_key_down, page_key_press, on_focused,
  tab_flush,
}
use genie_tangle.Tty.Socket.{
  receive, receive_at, receive_kill, for_terms, transport_up, transport_down, publish_failed,
  failed_at,
}
use genie_tangle.Terminal.{Terminal, Effect, repaint, retitle, flash, take_focus, output, send}
use genie_tangle.Terminal.Keys.{key_down}
use genie_tangle.Terminal.Write.{write}
use genie_tangle.Terminal.Valid.Writes.{Unless}
use genie_tangle.Tty.Whole.{
  create_tab-keeps, create_window-keeps, ready-keeps, window_destroy-keeps, tab_destroy-keeps,
}

module _ (P : Tty → Type 0) (c : IsClosed P) where
  perform-keeps : (e : Effect) (i : ℕ) (p : Tty) → P p → P (perform e i p)
  perform-keeps (repaint start end) i p h = h
  perform-keeps (retitle title) i p h = titled-keeps P c title i p h
  perform-keeps flash i p h = h
  perform-keeps take_focus i p h = focus_on_tab-keeps P c i p h
  perform-keeps (output text) i p h =
      if-both P (tab_of i p).destroyed h (publish-keeps P c (input (tab_of i p).id text) p h)

  perform_all-keeps : (es : List Effect) (i : ℕ) (p : Tty) → P p → P (perform_all es i p)
  unfolding perform_all
  perform_all-keeps [] i p h = h
  perform_all-keeps (e ∷ es) i p h = perform_all-keeps es i _ (perform-keeps e i p h)

  -- What a run leaves, if it does not throw.
  abbrev pub Left : Outcome Tty → Type 0
  Left m = Unless P m

  run_tab-Left : (i : ℕ) (f : Terminal → Outcome Terminal) (p : Tty) → P p → Left (run_tab i f p)
  unfolding run_tab
  run_tab-Left i f p h = ran (f (tab_of i p).term)
    where
      ran :
          (m : Outcome Terminal)
          → Left (
              m >>= λ u. ok (
                perform_all
                  (drop (length (tab_of i p).term.io.effects) u.io.effects)
                  i
                  (on_term i (λ _. u) p)))
      ran (fault e) = tt
      ran (ok u) = perform_all-keeps _ i _ (on_term-keeps P c i (λ _. u) p h)

  tab_write-Left : (text : List ℕ) (i : ℕ) (p : Tty) → P p → Left (tab_write text i p)
  unfolding tab_write
  tab_write-Left text i p h =
      let b = holds_focus (tab_of i p).window i p in
      let q = if b then p else on_tab i (λ t. record t { red = true }) p in
      let g : P q = if-both P b h (c.tab_kept i (λ t. record t { red = true }) p (λ t. refl) h) in
      if-both Left (tab_of i p).destroyed h (run_tab-Left i (write text) q g)

  receive-Left : (o : Option ℕ) (text : List ℕ) (p : Tty) → P p → Left (receive_at o text p)
  receive-Left none text p h = h
  receive-Left (some i) text p h = tab_write-Left text i p h

  failed-Left : (o : Option ℕ) (p : Tty) → P p → Left (failed_at o p)
  failed-Left none p h = tt
  failed-Left (some i) p h = disconnected-keeps P c i p h

  for_terms-keeps :
      (f : ℕ → Tty → Tty) (terms : List (List ℕ × ℕ)) (p : Tty)
      → ((i : ℕ) (q : Tty) → P q → P (f i q))
      → P p
      → P (for_terms f terms p)
  unfolding for_terms
  for_terms-keeps f [] p k h = h
  for_terms-keeps f ((id, i) ∷ terms) p k h = for_terms-keeps f terms (f i p) k (k i p h)

  focused-Left :
      (o : Option ℕ) (f : ℕ → Outcome Tty) → ((i : ℕ) → Left (f i)) → Left (on_focused o f)
  focused-Left none f h = tt
  focused-Left (some i) f h = h i

  wheel-Left : (mac turned_up : Bool) (i : ℕ) (p : Tty) → P p → Left (tab_wheel mac turned_up i p)
  unfolding tab_wheel tab_key_down
  wheel-Left mac turned_up i p h = if-both Left (tab_of i p).term.modes.mouse_events h (
      if-both Left (not (scrollable (tab_of i p).process)) h
        (run_tab-Left i (λ t. ok (key_down mac (page_key turned_up) t)) p h))

  focus_first-keeps : (k : EventType) (i : ℕ) (p : Tty) → P p → P (focus_first k i p)
  focus_first-keeps mousedown i p h = focus_on_tab-keeps P c i p h
  focus_first-keeps mouseup i p h = h
  focus_first-keeps mousemove i p h = h
  focus_first-keeps wheel i p h = h

  respond-Left : (e : Event) (p : Tty) → P p → Left (respond e p)
  unfolding receive receive_kill transport_up transport_down publish_failed page_key_down
      page_key_press tab_key_down tab_flush
  respond-Left opens_window p h = create_window-keeps P c p h
  respond-Left (opens_tab w) p h = create_tab-keeps P c w p h
  respond-Left (is_ready id i) p h = ready-keeps P c id i p h
  respond-Left (receives id text) p h = receive-Left _ text p h
  respond-Left (is_killed id) p h = for_some-keeps P disconnected _ p (disconnected-keeps P c) h
  respond-Left goes_up p h = for_terms-keeps connected p.terms p (connected-keeps P c) h
  respond-Left goes_down p h = for_terms-keeps disconnected p.terms p (disconnected-keeps P c) h
  respond-Left (fails id) p h = failed-Left _ p h
  respond-Left (focuses_tab i) p h = focus_on_tab-keeps P c i p h
  respond-Left (focuses_window w) p h = window_focus-keeps P c w p h
  respond-Left (steps next w) p h = focus_tab-keeps P c next w p h
  respond-Left (ends_tab i) p h = tab_destroy-keeps P c i p h
  respond-Left (ends_window w) p h = window_destroy-keeps P c w p h
  respond-Left (maximizes cols rows w) p h = maximize-keeps P c cols rows w p h
  respond-Left (page_resizes size) p h = page_resize-keeps P c size _ p h
  respond-Left (key_goes_down mac ev) p h = focused-Left p.focus _ (λ i. run_tab-Left i _ p h)
  respond-Left (key_is_pressed ev) p h = focused-Left p.focus _ (λ i. run_tab-Left i _ p h)
  respond-Left (wheel_turns mac turned_up i) p h = wheel-Left mac turned_up i p h
  respond-Left (timer_runs i) p h = run_tab-Left i _ p h
  respond-Left (pastes text i) p h = on_term-keeps P c i (send text) p h
  respond-Left (uses_mouse st ev m i) p h = run_tab-Left i _ _ (focus_first-keeps ev.type i p h)

  settled-Left :
      (m : Outcome Tty)
      → Left m
      → Left (m >>= λ q. if has_thrown q.tabs then fault type_error else ok q)
  settled-Left (ok q) h = if-both Left (has_thrown q.tabs) tt h
  settled-Left (fault e) h = tt

  happen-Left : (e : Event) (p : Tty) → P p → Left (happen e p)
  happen-Left e p h = settled-Left (respond e p) (respond-Left e p h)

  pub Reached-keeps : (p q : Tty) → Reached p q → P p → P q
  Reached-keeps p _ at_first h = h
  Reached-keeps p _ (after q r e k n) h = subst Left n (happen-Left e q (Reached-keeps p q k h))
