-- ===== src/Tty/Focus.antt =====
-- `focus` of a terminal (static/term.js), of a tab and of a window, and `focusTab`.
use genie_tangle.Tty.Titles.{handle_title}
use genie_tangle.Terminal.{Terminal, send, refresh, show_cursor}
use genie_tangle.Windows.{focus_target, is_focused}
use genie_tangle.Prelude.{
  some, if◌then◌else◌, ℕ, ◌∷◌, true, none, codes, if◌then◌else◌, Option, zero, false, if◌then◌else◌,
  Bool, suc,
}
use genie_tangle.Tty.State.{holds_focus, frame_of, Tty, on_frame, for_some, tab_of, on_tab, on_term}

-- What the terminal that has the focus does when it loses it.
unfoldable pub blur : Terminal → Terminal
blur t =
    let u = refresh t.scr.y t.scr.y (record t { cursor_state = false }) in
    if u.modes.send_focus then send (27 ∷ codes "[O") u else u

abbrev pub blur_old : Option ℕ → Tty → Tty
blur_old none p = p
blur_old (some j) p = on_term j blur p

unfoldable pub gain : Terminal → Terminal
gain t = show_cursor (if t.modes.send_focus then send (27 ∷ codes "[I") t else t)

-- `Terminal.prototype.focus`
unfoldable pub terminal_focus : ℕ → Tty → Tty
terminal_focus i p =
    if is_focused i p.focus
    then p
    else on_term i gain (record (blur_old p.focus p) { focus = some i })

-- `if (win.focused) { … }`
abbrev pub put_aside : Option ℕ → Tty → Tty
put_aside none p = p
put_aside (some j) p = on_tab j (λ t. record t { shown = false; bold = false }) p

-- `if (win.focused !== this) { … }`
unfoldable pub switch_to : ℕ → ℕ → Tty → Tty
switch_to w i p =
    if holds_focus w i p
    then p
    else let q = put_aside (frame_of w p).inner.focused p in
      on_tab i (λ t. record t { shown = true; bold = true; red = false })
        (on_frame w
          (λ f. record f {
            inner = record (f.inner) { focused = some i };
            heading = (tab_of i p).process;
          })
          q)

-- `Tab.prototype.focus` and `Window.prototype.focus` call each other, with the rounds that are left.
-- A window has a focused tab as soon as its first tab is made, and never has none again.
unfoldable pub tab_focus : ℕ → ℕ → Tty → Tty
tab_focus zero i p = p
tab_focus (suc n) i p =
    if is_focused i p.focus
    then p
    else let w = (tab_of i p).window in
      let q = switch_to w i p in
      let r = terminal_focus i (handle_title (tab_of i q).title i q) in
      for_some (tab_focus n) (frame_of w r).inner.focused r

-- The tab, its window, and once more the tab, which has the focus by then.
abbrev pub focus_on_tab : ℕ → Tty → Tty
focus_on_tab i p = tab_focus 2 i p

unfoldable pub window_focus : ℕ → Tty → Tty
window_focus w p = for_some focus_on_tab (frame_of w p).inner.focused p

-- `focusTab`
unfoldable pub window_focus_tab : Bool → ℕ → Tty → Tty
window_focus_tab next w p = for_some focus_on_tab (focus_target next (frame_of w p).inner) p
