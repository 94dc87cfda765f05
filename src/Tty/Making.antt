-- ===== src/Tty/Making.antt =====
-- The constructors `Tab` and `Window`, and `ready`.
use genie_tangle.Terminal.{refresh, new_terminal}
use genie_tangle.Tty.Focus.{focus_on_tab, window_focus}
use genie_tangle.Screen.{default_cols, default_rows}
use genie_tangle.Windows.{add_tab}
use genie_tangle.Tty.Titles.{connected, set_process_name}
use genie_tangle.Tty.State.{on_term, no_tab, on_tab, on_frame, no_frame, Tab, Tty, frame_of}
use genie_tangle.Prelude.{
  ◌-◌, push, if◌then◌else◌, some, text_eq, true, none, ◌∷◌, length, Option, ℕ, [], if◌then◌else◌,
  if◌then◌else◌, List, codes,
}

-- A tab of the window `w`, before `open`.
abbrev pub fresh_tab : ℕ → Tty → Tab
fresh_tab w p = record no_tab {
  window = w;
  term = new_terminal (frame_of w p).cols (frame_of w p).rows;
}

-- `open`, as far as it is not the page's alone: the first repaint, and the focus.
unfoldable pub open_tab : ℕ → Tty → Tty
open_tab i p = focus_on_tab i (on_term i (λ t. refresh 0 (t.scr.rows - 1) t) p)

-- `win.tabs.push(this)`
unfoldable pub enlist : ℕ → ℕ → Tty → Tty
enlist i w p = on_frame w (λ f. record f { inner = add_tab i f.inner }) p

-- `new Tab(win, socket)`, which `createTab` calls
unfoldable pub create_tab : ℕ → Tty → Tty
create_tab w p =
    let i = length p.tabs in
    let q = open_tab i (record p { tabs = push p.tabs (fresh_tab w p) }) in
    enlist i w (set_process_name (codes "Connecting ...") i q)

-- `new Window(el)`, with `Terminal.geometry`
unfoldable pub create_window : Tty → Tty
create_window p =
    let w = length p.frames in
    let f = record no_frame { cols = default_cols; rows = default_rows } in
    let q = record p { frames = push p.frames f; windows = push p.windows w } in
    window_focus w (create_tab w q)

-- `tty.terms[id] = tab`
unfoldable pub register : List ℕ → ℕ → List (List ℕ × ℕ) → List (List ℕ × ℕ)
register id i [] = (id, i) ∷ []
register id i ((other, j) ∷ terms) =
    let rest = register id i terms in
    if text_eq other id then (id, i) ∷ terms else (other, j) ∷ rest

-- `tty.terms[id]`
unfoldable pub registered : List ℕ → List (List ℕ × ℕ) → Option ℕ
registered id [] = none
registered id ((other, j) ∷ terms) =
    let rest = registered id terms in if text_eq other id then some j else rest

-- `delete tty.terms[id]`
unfoldable pub unregister : List ℕ → List (List ℕ × ℕ) → List (List ℕ × ℕ)
unregister id [] = []
unregister id ((other, j) ∷ terms) =
    let rest = unregister id terms in if text_eq other id then rest else (other, j) ∷ rest

-- `Tab.prototype.ready`, with the listener of `connected`; the id is a text that is not empty
unfoldable pub ready : List ℕ → ℕ → Tty → Tty
ready id i p =
    let q = on_tab i (λ t. record t { id = id; pty = true }) p in
    connected i (record q { terms = register id i q.terms })
