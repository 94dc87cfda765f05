-- ===== src/Tty/Whole.antt =====
-- Properties of the page that the changes of the code keep, on the constructors and the ends of tabs
-- and windows.
use genie_tangle.Prelude.{
  get_elem?, ◌-◌, ℕ, true, push, List, if-both, length, is_empty, codes, false, refl,
}
use genie_tangle.Tty.Kept.{
  IsClosed, on_term-keeps, on_frame-keeps, named-keeps, publish-keeps, connected-keeps,
  focus_on_tab-keeps, window_focus-keeps, focus_tab-keeps, minimize-keeps,
}
use genie_tangle.Tty.State.{
  Tty, tab_of, frame_of, on_tab, on_frame, on_term, holds_focus, publish, killed, no_frame,
}
use genie_tangle.Tty.Titles.{set_process_name}
use genie_tangle.Tty.Focus.{focus_on_tab, window_focus}
use genie_tangle.Tty.Loops.{for_some-keeps, each-keeps}
use genie_tangle.Tty.Making.{
  create_tab, create_window, ready, open_tab, fresh_tab, enlist, register, unregister,
}
use genie_tangle.Tty.Ending.{take_out, destroy_with, first_window, window_destroy, tab_destroy}
use genie_tangle.Tty.Sizes.{minimize, each_tab}
use genie_tangle.Windows.{sanitize, splice, add_tab}
use genie_tangle.Tty.Wheel.{scrollable}
use genie_tangle.Terminal.{refresh}
use genie_tangle.Screen.{default_cols, default_rows}

module _ (P : Tty → Type 0) (c : IsClosed P) where
  pub create_tab-keeps : (w : ℕ) (p : Tty) → P p → P (create_tab w p)
  unfolding create_tab open_tab enlist scrollable sanitize
  create_tab-keeps w p h =
      let i = length p.tabs in
      let q = record p { tabs = push p.tabs (fresh_tab w p) } in
      let g : P q = c.tab_added w p h in
      let r = on_term i (λ t. refresh 0 (t.scr.rows - 1) t) q in
      on_frame-keeps P c w (λ f. record f { inner = add_tab i f.inner })
        (set_process_name (codes "Connecting ...") i (focus_on_tab i r))
        (named-keeps P c (codes "Connecting ...") i (focus_on_tab i r) refl (
          focus_on_tab-keeps P c i r (on_term-keeps P c i (λ t. refresh 0 (t.scr.rows - 1) t) q g)))

  pub create_window-keeps : (p : Tty) → P p → P (create_window p)
  unfolding create_window
  create_window-keeps p h =
      let f = record no_frame { cols = default_cols; rows = default_rows } in
      let w = length p.frames in
      let q = record p { frames = push p.frames f; windows = push p.windows w } in
      let g : P q =
        c.windows_kept (push p.windows w) (record p { frames = push p.frames f })
          (c.frames_kept (push p.frames f) p h) in
      window_focus-keeps P c w (create_tab w q) (create_tab-keeps w q g)

  pub ready-keeps : (id : List ℕ) (i : ℕ) (p : Tty) → P p → P (ready id i p)
  unfolding ready
  ready-keeps id i p h =
      let q = on_tab i (λ t. record t { id = id; pty = true }) p in
      connected-keeps P c i (record q { terms = register id i q.terms })
        (c.terms_kept (register id i q.terms) q
          (c.tab_kept i (λ t. record t { id = id; pty = true }) p (λ t. refl) h))

  take_out-keeps : (i : ℕ) (p : Tty) → P p → P (take_out i p)
  unfolding take_out
  take_out-keeps i p h =
      let t = tab_of i p in
      let q = on_tab i (λ t. record t { destroyed = true; shown = false }) p in
      let r = record q { terms = unregister t.id q.terms } in
      let s =
        on_frame t.window
          (λ f. record f { inner = record (f.inner) { tabs = splice f.inner.tabs i } }) r in
      let g : P s =
        on_frame-keeps P c t.window
          (λ f. record f { inner = record (f.inner) { tabs = splice f.inner.tabs i } }) r
          (c.terms_kept (unregister t.id q.terms) q
            (c.tab_kept i (λ t. record t { destroyed = true; shown = false }) p (λ t. refl) h)) in
      if-both P (holds_focus t.window i s) (focus_tab-keeps P c false t.window s g) g

  destroy_with-keeps :
      (close : ℕ → Tty → Tty) (i : ℕ) (p : Tty)
      → ((w : ℕ) (q : Tty) → P q → P (close w q))
      → P p
      → P (destroy_with close i p)
  destroy_with-keeps close i p k h =
      let w = (tab_of i p).window in
      let q = take_out i (publish (killed (tab_of i p).id) p) in
      let g =
        take_out-keeps i (publish (killed (tab_of i p).id) p)
          (publish-keeps P c (killed (tab_of i p).id) p h) in
      if-both P (tab_of i p).destroyed h
        (if-both P (is_empty (frame_of w q).inner.tabs) (k w q g) g)

  pub window_destroy-keeps : (w : ℕ) (p : Tty) → P p → P (window_destroy w p)
  unfolding window_destroy each_tab
  window_destroy-keeps w p h =
      let q = minimize w (on_frame w (λ f. record f { closed = true }) p) in
      let g =
        minimize-keeps P c w (on_frame w (λ f. record f { closed = true }) p)
          (on_frame-keeps P c w (λ f. record f { closed = true }) p h) in
      let s = record q { windows = splice q.windows w } in
      if-both P (frame_of w p).closed h (
        each-keeps P (destroy_with (λ _ r. r)) w _ (first_window s)
          (λ j r k. destroy_with-keeps (λ _ u. u) j r (λ v u m. m) k)
          (for_some-keeps P window_focus (get_elem? s.windows 0) s (window_focus-keeps P c)
            (c.windows_kept (splice q.windows w) q g)))

  pub tab_destroy-keeps : (i : ℕ) (p : Tty) → P p → P (tab_destroy i p)
  unfolding tab_destroy
  tab_destroy-keeps i p h = destroy_with-keeps window_destroy i p window_destroy-keeps h
