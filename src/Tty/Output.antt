-- ===== src/Tty/Output.antt =====
-- What a terminal does outside of itself, for a tab: the title, the focus, and the text for the server.
use genie_tangle.Tty.Titles.{handle_title}
use genie_tangle.Tty.Focus.{focus_on_tab}
use genie_tangle.Terminal.Write.{write}
use genie_tangle.Terminal.{Terminal, output, flash, repaint, flush, take_focus, Effect, retitle}
use genie_tangle.Terminal.Keys.{KeyEvent, key_down, PressEvent, key_press}
use genie_tangle.Tty.State.{holds_focus, Tty, tab_of, publish, input, on_tab, on_term}
use genie_tangle.Prelude.{
  true, ◌>>=◌, Outcome, ℕ, List, if◌then◌else◌, if◌then◌else◌, ok, drop, Bool, length, [],
  if◌then◌else◌, ◌∷◌, type_error, Option, fault, some, none,
}

-- `Tab.prototype.handler`, which `destroy` replaces by a function that does nothing
abbrev pub hand_on : List ℕ → ℕ → Tty → Tty
hand_on text i p = if (tab_of i p).destroyed then p else publish (input (tab_of i p).id text) p

-- one call; a repaint and a flash change the element alone
abbrev pub perform : Effect → ℕ → Tty → Tty
perform (repaint start end) i p = p
perform (retitle title) i p = handle_title title i p
perform flash i p = p
perform take_focus i p = focus_on_tab i p
perform (output text) i p = hand_on text i p

unfoldable pub perform_all : List Effect → ℕ → Tty → Tty
perform_all [] i p = p
perform_all (e ∷ es) i p = perform_all es i (perform e i p)

-- A run of the terminal of a tab: its calls are those that it adds. They read nothing that the rest of
-- the run changes, so that they may follow it. Where a `refresh` of the run throws, the
-- terminal notes it, and the event that led here is a fault at its end.
unfoldable pub run_tab : ℕ → (Terminal → Outcome Terminal) → Tty → Outcome Tty
run_tab i f p =
    let t = (tab_of i p).term in
    f t >>= λ u. ok (perform_all (drop (length t.io.effects) u.io.effects) i (on_term i (λ _. u) p))

-- `Tab.prototype.write`; `destroy` of the terminal replaces it by a function that does
-- nothing
unfoldable pub tab_write : List ℕ → ℕ → Tty → Outcome Tty
tab_write text i p =
    let t = tab_of i p in
    let q = if holds_focus t.window i p then p else on_tab i (λ t. record t { red = true }) p in
    if t.destroyed then ok p else run_tab i (write text) q

-- `keyDown` of the tab that has the focus
unfoldable pub tab_key_down : Bool → KeyEvent → ℕ → Tty → Outcome Tty
tab_key_down mac ev i p = run_tab i (λ t. ok (key_down mac ev t)) p

-- `Terminal.bindKeys`: the key goes to the terminal that has the focus
abbrev pub on_focused : Option ℕ → (ℕ → Outcome Tty) → Outcome Tty
on_focused none f = fault type_error
on_focused (some i) f = f i

unfoldable pub page_key_down : Bool → KeyEvent → Tty → Outcome Tty
page_key_down mac ev p = on_focused p.focus (λ i. tab_key_down mac ev i p)

unfoldable pub page_key_press : PressEvent → Tty → Outcome Tty
page_key_press ev p = on_focused p.focus (λ i. run_tab i (λ t. ok (key_press ev t)) p)

-- the timer of `send`
unfoldable pub tab_flush : ℕ → Tty → Outcome Tty
tab_flush i p = run_tab i (λ t. ok (flush t)) p
