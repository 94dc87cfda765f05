-- ===== src/Tty/Kept.antt =====
-- Properties of the page that the changes of the code keep, on titles, the focus and the sizes.
use genie_tangle.Prelude.{
  refl, some, ℕ, List, get_elem?, set, Bool, ◌≡◌, false, true, if-both, zero, Option, none, push,
  is_empty, codes, suc,
}
use genie_tangle.Tty.State.{
  Tty, tab_of, frame_of, on_tab, on_frame, on_term, Tab, Frame, Message, holds_focus, publish,
  resized,
}
use genie_tangle.Tty.Wheel.{scrollable}
use genie_tangle.Tty.Making.{fresh_tab}
use genie_tangle.Tty.Titles.{set_process_name, connected, disconnected, handle_title}
use genie_tangle.Tty.Focus.{
  terminal_focus, blur_old, blur, gain, put_aside, switch_to, tab_focus, focus_on_tab, window_focus,
  window_focus_tab,
}
use genie_tangle.Tty.Loops.{for_some-keeps, each-keeps}
use genie_tangle.Tty.Sizes.{
  tab_resize, each_tab, window_resize, minimize_to, minimize, enlarge, maximize_from, maximize,
  keep_from, keep_maximized, on_page_resize, focused_term,
}
use genie_tangle.Windows.{is_focused, sanitize}
use genie_tangle.Terminal.{Terminal, resize}

-- What the code changes: a tab up to the name of its process, the name to one that the page gives, a new
-- tab, the focus to a tab, the windows, the registry, and what is published.
pub record IsClosed (P : Tty → Type 0) : Type 0 where
  pub tab_kept :
      (i : ℕ) (f : Tab → Tab) (p : Tty)
      → ((t : Tab) → (f t).process ≡ t.process)
      → P p
      → P (on_tab i f p)
  pub name_kept :
      (name : List ℕ) (i : ℕ) (p : Tty)
      → scrollable (sanitize name) ≡ false
      → P p
      → P (on_tab i (λ t. record t { process = sanitize name }) p)
  pub tab_added : (w : ℕ) (p : Tty) → P p → P (record p { tabs = push p.tabs (fresh_tab w p) })
  pub focus_kept : (i : ℕ) (p : Tty) → P p → P (record p { focus = some i })
  pub frames_kept : (fs : List Frame) (p : Tty) → P p → P (record p { frames = fs })
  pub windows_kept : (ws : List ℕ) (p : Tty) → P p → P (record p { windows = ws })
  pub terms_kept : (ts : List (List ℕ × ℕ)) (p : Tty) → P p → P (record p { terms = ts })
  pub published_kept : (ms : List Message) (p : Tty) → P p → P (record p { published = ms })

module _ (P : Tty → Type 0) (c : IsClosed P) where
  pub on_frame-keeps : (w : ℕ) (f : Frame → Frame) (p : Tty) → P p → P (on_frame w f p)
  on_frame-keeps w f p h = c.frames_kept (set p.frames w (f (frame_of w p))) p h

  pub on_term-keeps : (i : ℕ) (f : Terminal → Terminal) (p : Tty) → P p → P (on_term i f p)
  on_term-keeps i f p h = c.tab_kept i (λ t. record t { term = f t.term }) p (λ t. refl) h

  pub named-keeps :
      (name : List ℕ) (i : ℕ) (p : Tty)
      → scrollable (sanitize name) ≡ false
      → P p
      → P (set_process_name name i p)
  unfolding set_process_name
  named-keeps name i p n h =
      let text = sanitize name in
      let q = on_tab i (λ t. record t { process = text }) p in
      let w = (tab_of i p).window in
      let g = c.name_kept name i p n h in
      if-both P (holds_focus w i q) (on_frame-keeps w (λ f. record f { heading = text }) q g) g

  pub connected-keeps : (i : ℕ) (p : Tty) → P p → P (connected i p)
  unfolding connected scrollable sanitize
  connected-keeps i p h =
      if-both P (tab_of i p).destroyed h
        (if-both P (tab_of i p).pty (named-keeps (codes "Connected") i p refl h) h)

  pub disconnected-keeps : (i : ℕ) (p : Tty) → P p → P (disconnected i p)
  unfolding disconnected scrollable sanitize
  disconnected-keeps i p h =
      if-both P (tab_of i p).destroyed h (named-keeps (codes "Disconnected") i p refl h)

  pub publish-keeps : (m : Message) (p : Tty) → P p → P (publish m p)
  publish-keeps m p h = c.published_kept (push p.published m) p h

  pub titled-keeps : (title : List ℕ) (i : ℕ) (p : Tty) → P p → P (handle_title title i p)
  unfolding handle_title
  titled-keeps title i p h =
      let q = on_tab i (λ t. record t { title = sanitize title }) p in
      let g = c.tab_kept i (λ t. record t { title = sanitize title }) p (λ t. refl) h in
      if-both P (is_empty title) h (
        if-both P (holds_focus (tab_of i p).window i q)
          (on_frame-keeps (tab_of i p).window (λ f. record f { tip = sanitize title }) q g) g)

  blur_old-keeps : (o : Option ℕ) (p : Tty) → P p → P (blur_old o p)
  blur_old-keeps none p h = h
  blur_old-keeps (some j) p h = on_term-keeps j blur p h

  terminal_focus-keeps : (i : ℕ) (p : Tty) → P p → P (terminal_focus i p)
  unfolding terminal_focus
  terminal_focus-keeps i p h = if-both P (is_focused i p.focus) h (
      on_term-keeps i gain (record (blur_old p.focus p) { focus = some i })
        (c.focus_kept i (blur_old p.focus p) (blur_old-keeps p.focus p h)))

  put_aside-keeps : (o : Option ℕ) (p : Tty) → P p → P (put_aside o p)
  put_aside-keeps none p h = h
  put_aside-keeps (some j) p h =
      c.tab_kept j (λ t. record t { shown = false; bold = false }) p (λ t. refl) h

  switch_to-keeps : (w i : ℕ) (p : Tty) → P p → P (switch_to w i p)
  unfolding switch_to
  switch_to-keeps w i p h =
      let q = put_aside (frame_of w p).inner.focused p in
      if-both P (holds_focus w i p) h (
        c.tab_kept i (λ t. record t { shown = true; bold = true; red = false })
          (on_frame w
            (λ f. record f {
              inner = record (f.inner) { focused = some i };
              heading = (tab_of i p).process;
            })
            q)
          (λ t. refl)
          (on_frame-keeps w
            (λ f. record f {
              inner = record (f.inner) { focused = some i };
              heading = (tab_of i p).process;
            })
            q (put_aside-keeps (frame_of w p).inner.focused p h)))

  tab_focus-keeps : (n i : ℕ) (p : Tty) → P p → P (tab_focus n i p)
  unfolding tab_focus
  tab_focus-keeps zero i p h = h
  tab_focus-keeps (suc n) i p h =
      let w = (tab_of i p).window in
      let q = switch_to w i p in
      let r = terminal_focus i (handle_title (tab_of i q).title i q) in
      let k =
        terminal_focus-keeps i (handle_title (tab_of i q).title i q)
          (titled-keeps (tab_of i q).title i q (switch_to-keeps w i p h)) in
      if-both P (is_focused i p.focus) h
        (for_some-keeps P (tab_focus n) (frame_of w r).inner.focused r (tab_focus-keeps n) k)

  pub focus_on_tab-keeps : (i : ℕ) (p : Tty) → P p → P (focus_on_tab i p)
  focus_on_tab-keeps i p h = tab_focus-keeps 2 i p h

  pub window_focus-keeps : (w : ℕ) (p : Tty) → P p → P (window_focus w p)
  unfolding window_focus
  window_focus-keeps w p h = for_some-keeps P focus_on_tab _ p focus_on_tab-keeps h

  pub focus_tab-keeps : (next : Bool) (w : ℕ) (p : Tty) → P p → P (window_focus_tab next w p)
  unfolding window_focus_tab
  focus_tab-keeps next w p h = for_some-keeps P focus_on_tab _ p focus_on_tab-keeps h

  window_resize-keeps : (cols rows w : ℕ) (p : Tty) → P p → P (window_resize cols rows w p)
  unfolding window_resize each_tab tab_resize
  window_resize-keeps cols rows w p h =
      each-keeps P (tab_resize cols rows) w _
        (on_frame w (λ f. record f { cols = cols; rows = rows }) p)
        (λ j q g.
          on_term-keeps j (resize cols rows) (publish (resized (tab_of j q).id cols rows) q)
            (publish-keeps (resized (tab_of j q).id cols rows) q g))
        (on_frame-keeps w (λ f. record f { cols = cols; rows = rows }) p h)

  pub minimize-keeps : (w : ℕ) (p : Tty) → P p → P (minimize w p)
  unfolding minimize
  minimize-keeps w p h = minimized (frame_of w p).minimize
    where
      minimized : (o : Option (ℕ × ℕ)) → P (minimize_to o w p)
      minimized none = h
      minimized (some m) =
          window_resize-keeps (m.0) (m.1) w _
            (on_frame-keeps w (λ f. record f { minimize = none }) p h)

  pub maximize-keeps : (cols rows w : ℕ) (p : Tty) → P p → P (maximize cols rows w p)
  unfolding maximize enlarge
  maximize-keeps cols rows w p h = maximized (frame_of w p).minimize
    where
      maximized : (o : Option (ℕ × ℕ)) → P (maximize_from o cols rows w p)
      maximized none =
          let s = (focused_term w p).scr in
          window_resize-keeps cols rows w _
            (on_frame-keeps w (λ f. record f { minimize = some (s.cols, s.rows) }) p h)
      maximized (some m) = minimize-keeps w p h

  keep_maximized-keeps : (cols rows w : ℕ) (p : Tty) → P p → P (keep_maximized cols rows w p)
  unfolding keep_maximized
  keep_maximized-keeps cols rows w p h = kept (frame_of w p).minimize
    where
      kept : (o : Option (ℕ × ℕ)) → P (keep_from o cols rows w p)
      kept none = h
      kept (some m) = maximize-keeps cols rows w (minimize w p) (minimize-keeps w p h)

  pub page_resize-keeps : (size : ℕ → ℕ × ℕ) (n : ℕ) (p : Tty) → P p → P (on_page_resize size n p)
  unfolding on_page_resize
  page_resize-keeps size zero p h = h
  page_resize-keeps size (suc n) p h = page_resize-keeps size n _ (
      for_some-keeps P (λ w. keep_maximized (size w).0 (size w).1 w) (get_elem? p.windows n) p
        (λ w. keep_maximized-keeps (size w).0 (size w).1 w) h)
