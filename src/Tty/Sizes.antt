-- ===== src/Tty/Sizes.antt =====
-- `resize` of a tab and of a window, `maximize` and `minimize`.
use genie_tangle.Tty.State.{frame_of, Tty, publish, on_frame, resized, for_some, tab_of, on_term}
use genie_tangle.Prelude.{some, length, get_elem?, ℕ, none, Option, zero, suc}
use genie_tangle.Terminal.{resize, blank_terminal, Terminal}

-- `Tab.prototype.resize`. Where the terminal's `refresh` throws, the terminal notes it, and the event that
-- led here is a fault: the tabs that the code does not come to then are of no account.
unfoldable pub tab_resize : ℕ → ℕ → ℕ → Tty → Tty
tab_resize cols rows i p =
    on_term i (resize cols rows) (publish (resized (tab_of i p).id cols rows) p)

-- `each`: from the last tab to the first. The list is read anew for each place, and none of the
-- functions that are called makes it longer.
unfoldable pub each : (ℕ → Tty → Tty) → ℕ → ℕ → Tty → Tty
each func w zero p = p
each func w (suc i) p = each func w i (for_some func (get_elem? (frame_of w p).inner.tabs i) p)

unfoldable pub each_tab : (ℕ → Tty → Tty) → ℕ → Tty → Tty
each_tab func w p = each func w (length (frame_of w p).inner.tabs) p

-- `Window.prototype.resize`
unfoldable pub window_resize : ℕ → ℕ → ℕ → Tty → Tty
window_resize cols rows w p =
    each_tab (tab_resize cols rows) w (on_frame w (λ f. record f { cols = cols; rows = rows }) p)

-- `this.minimize()`, if there is one
abbrev pub minimize_to : Option (ℕ × ℕ) → ℕ → Tty → Tty
minimize_to none w p = p
minimize_to (some m) w p =
    window_resize (m.0) (m.1) w (on_frame w (λ f. record f { minimize = none }) p)

unfoldable pub minimize : ℕ → Tty → Tty
minimize w p = minimize_to (frame_of w p).minimize w p

-- The terminal of the focused tab; a window has one as soon as its first tab is made.
abbrev pub focused_term : ℕ → Tty → Terminal
focused_term w p = elim (frame_of w p).inner.focused [
  | none ↦ blank_terminal
  | some j ↦ (tab_of j p).term
]

-- The rest of `maximize`. The page gives the columns and rows that fit, `(x * term.cols) | 0` and
-- `(y * term.rows) | 0`.
unfoldable pub enlarge : ℕ → ℕ → ℕ → Tty → Tty
enlarge cols rows w p =
    let s = (focused_term w p).scr in
    window_resize cols rows w (on_frame w (λ f. record f { minimize = some (s.cols, s.rows) }) p)

abbrev pub maximize_from : Option (ℕ × ℕ) → ℕ → ℕ → ℕ → Tty → Tty
maximize_from none cols rows w p = enlarge cols rows w p
maximize_from (some m) cols rows w p = minimize w p

unfoldable pub maximize : ℕ → ℕ → ℕ → Tty → Tty
maximize cols rows w p = maximize_from (frame_of w p).minimize cols rows w p

-- The listener of the page's own `resize`: `if (win.minimize) { win.minimize(); win.maximize(); }`.
abbrev pub keep_from : Option (ℕ × ℕ) → ℕ → ℕ → ℕ → Tty → Tty
keep_from none cols rows w p = p
keep_from (some m) cols rows w p = maximize cols rows w (minimize w p)

unfoldable pub keep_maximized : ℕ → ℕ → ℕ → Tty → Tty
keep_maximized cols rows w p = keep_from (frame_of w p).minimize cols rows w p

-- over `tty.windows`, from the last to the first; the page gives a size for each window
unfoldable pub on_page_resize : (ℕ → ℕ × ℕ) → ℕ → Tty → Tty
on_page_resize size zero p = p
on_page_resize size (suc i) p =
    on_page_resize size i
      (for_some (λ w. keep_maximized (size w).0 (size w).1 w) (get_elem? p.windows i) p)
