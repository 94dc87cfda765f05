-- ===== src/Tty/Ending.antt =====
-- `destroy` of a tab and of a window.
use genie_tangle.Tty.Making.{unregister}
use genie_tangle.Prelude.{
  get_elem?, if◌then◌else◌, ℕ, true, is_empty, if◌then◌else◌, false, if◌then◌else◌,
}
use genie_tangle.Tty.Sizes.{each_tab, minimize}
use genie_tangle.Tty.Focus.{window_focus, window_focus_tab}
use genie_tangle.Windows.{splice}
use genie_tangle.Tty.State.{
  killed, holds_focus, frame_of, Tty, publish, on_frame, for_some, tab_of, on_tab,
}

-- `_destroy` up to the test for the last tab: it leaves the page, the registry and its window.
unfoldable pub take_out : ℕ → Tty → Tty
take_out i p =
    let t = tab_of i p in
    let q = on_tab i (λ t. record t { destroyed = true; shown = false }) p in
    let r = record q { terms = unregister t.id q.terms } in
    let s =
      on_frame t.window
        (λ f. record f { inner = record (f.inner) { tabs = splice f.inner.tabs i } }) r in
    if holds_focus t.window i s then window_focus_tab false t.window s else s

-- `Tab.prototype.destroy`, with the `destroy` of the window as it is called for the last tab
abbrev pub destroy_with : (ℕ → Tty → Tty) → ℕ → Tty → Tty
destroy_with close i p =
    let t = tab_of i p in
    if t.destroyed
    then p
    else let q = take_out i (publish (killed t.id) p) in
      if is_empty (frame_of t.window q).inner.tabs then close t.window q else q

-- The first window that is left.
abbrev pub first_window : Tty → Tty
first_window p = for_some window_focus (get_elem? p.windows 0) p

-- `Window.prototype.destroy`. The window is marked before its tabs go, so that the `destroy` that its
-- last tab calls returns at once.
unfoldable pub window_destroy : ℕ → Tty → Tty
window_destroy w p =
    if (frame_of w p).closed
    then p
    else let q = minimize w (on_frame w (λ f. record f { closed = true }) p) in
      let r = first_window (record q { windows = splice q.windows w }) in
      each_tab (destroy_with (λ _ s. s)) w r

unfoldable pub tab_destroy : ℕ → Tty → Tty
tab_destroy i p = destroy_with window_destroy i p
