-- ===== src/Tty/Stays.antt =====
-- What titles and the focus leave of the page.
use genie_tangle.Screen.{Screen}
use genie_tangle.Windows.{is_focused, sanitize}
use genie_tangle.Tty.State.{
  on_term, Tab, frame_of, Tty, tab_of, Frame, no_frame, holds_focus, on_frame, for_some, no_tab,
  on_tab,
}
use genie_tangle.Terminal.{send, refresh, Terminal, show_cursor}
use genie_tangle.Tty.Titles.{set_process_name, handle_title}
use genie_tangle.Prelude.{
  length-set, length, ℕ, if◌then◌else◌, refl, ◌∙◌, some, ap, ◌∷◌, codes, Option, ◌≡◌, false,
  if◌then◌else◌, true, get_or-set_keep, zero, suc, Bool, if-both, none, is_empty, if◌then◌else◌,
  List,
}
use genie_tangle.Tty.Focus.{
  blur_old, switch_to, window_focus_tab, blur, window_focus, put_aside, tab_focus, terminal_focus,
  gain, focus_on_tab,
}

-- The window, the id, the end and the screen of a tab.
abbrev pub lasting : Tab → ℕ × List ℕ × Bool × Screen
lasting t = (t.window, t.id, t.destroyed, t.term.scr)

-- The same tabs up to their texts and marks, the same tabs in the same windows, the same registry and
-- nothing published.
pub record Stays (p q : Tty) : Type 0 where
  pub same_tab : (j : ℕ) → lasting (tab_of j q) ≡ lasting (tab_of j p)
  pub same_list : (w : ℕ) → (frame_of w q).inner.tabs ≡ (frame_of w p).inner.tabs
  pub tab_count : length q.tabs ≡ length p.tabs
  pub frame_count : length q.frames ≡ length p.frames
  pub same_terms : q.terms ≡ p.terms
  pub same_published : q.published ≡ p.published

pub Stays-refl : (p : Tty) → Stays p p
Stays-refl p = record {
  same_tab = λ j. refl;
  same_list = λ w. refl;
  tab_count = refl;
  frame_count = refl;
  same_terms = refl;
  same_published = refl;
}

Stays-trans : {p q r : Tty} → Stays p q → Stays q r → Stays p r
Stays-trans h k = record {
  same_tab = λ j. k.same_tab j ∙ h.same_tab j;
  same_list = λ w. k.same_list w ∙ h.same_list w;
  tab_count = k.tab_count ∙ h.tab_count;
  frame_count = k.frame_count ∙ h.frame_count;
  same_terms = k.same_terms ∙ h.same_terms;
  same_published = k.same_published ∙ h.same_published;
}

on_tab-Stays :
    (i : ℕ) (f : Tab → Tab) (p : Tty)
    → ((t : Tab) → lasting (f t) ≡ lasting t)
    → Stays p (on_tab i f p)
on_tab-Stays i f p h = record {
  same_tab = λ j. get_or-set_keep lasting f no_tab p.tabs i j h;
  same_list = λ w. refl;
  tab_count = length-set p.tabs i (f (tab_of i p));
  frame_count = refl;
  same_terms = refl;
  same_published = refl;
}

on_frame-Stays :
    (w : ℕ) (f : Frame → Frame) (p : Tty)
    → ((x : Frame) → (f x).inner.tabs ≡ x.inner.tabs)
    → Stays p (on_frame w f p)
on_frame-Stays w f p h = record {
  same_tab = λ j. refl;
  same_list = λ v. get_or-set_keep (λ (x : Frame). x.inner.tabs) f no_frame p.frames w v h;
  tab_count = refl;
  frame_count = length-set p.frames w (f (frame_of w p));
  same_terms = refl;
  same_published = refl;
}

refocus-Stays : (o : Option ℕ) {p q : Tty} → Stays p q → Stays p (record q { focus = o })
refocus-Stays o h = record {
  same_tab = h.same_tab;
  same_list = h.same_list;
  tab_count = h.tab_count;
  frame_count = h.frame_count;
  same_terms = h.same_terms;
  same_published = h.same_published;
}

-- A change of a terminal that leaves its screen.
on_term-Stays :
    (i : ℕ) (f : Terminal → Terminal) (p : Tty)
    → ((t : Terminal) → (f t).scr ≡ t.scr)
    → Stays p (on_term i f p)
on_term-Stays i f p h =
    on_tab-Stays i (λ t. record t { term = f t.term }) p
      (λ t. ap (λ (s : Screen). (t.window, t.id, t.destroyed, s)) (h t.term))

pub titled-Stays : (title : List ℕ) (i : ℕ) (p : Tty) → Stays p (handle_title title i p)
unfolding handle_title
titled-Stays title i p =
    let text = sanitize title in
    let q = on_tab i (λ t. record t { title = text }) p in
    let w = (tab_of i p).window in
    let a = on_tab-Stays i (λ t. record t { title = text }) p (λ t. refl) in
    if-both (Stays p) (is_empty title) (Stays-refl p) (
      if-both (Stays p) (holds_focus w i q)
        (Stays-trans a (on_frame-Stays w (λ f. record f { tip = text }) q (λ f. refl))) a)

pub named-Stays : (name : List ℕ) (i : ℕ) (p : Tty) → Stays p (set_process_name name i p)
unfolding set_process_name
named-Stays name i p =
    let text = sanitize name in
    let q = on_tab i (λ t. record t { process = text }) p in
    let w = (tab_of i p).window in
    let a = on_tab-Stays i (λ t. record t { process = text }) p (λ t. refl) in
    if-both (Stays p) (holds_focus w i q)
      (Stays-trans a (on_frame-Stays w (λ f. record f { heading = text }) q (λ f. refl))) a

send-scr : (text : List ℕ) (t : Terminal) → (send text t).scr ≡ t.scr
unfolding send
send-scr text t = refl

blur-scr : (t : Terminal) → (blur t).scr ≡ t.scr
unfolding blur refresh send
blur-scr t = if-both (λ (u : Terminal). u.scr ≡ t.scr) t.modes.send_focus refl refl

show_cursor-scr : (t : Terminal) → (show_cursor t).scr ≡ t.scr
unfolding show_cursor refresh
show_cursor-scr t = if-both (λ (u : Terminal). u.scr ≡ t.scr) t.cursor_state refl refl

gain-scr : (t : Terminal) → (gain t).scr ≡ t.scr
unfolding gain
gain-scr t =
    show_cursor-scr (if t.modes.send_focus then send (27 ∷ codes "[I") t else t)
    ∙ if-both (λ (u : Terminal). u.scr ≡ t.scr) t.modes.send_focus (send-scr (27 ∷ codes "[I") t)
        refl

blur_old-Stays : (o : Option ℕ) (p : Tty) → Stays p (blur_old o p)
blur_old-Stays none p = Stays-refl p
blur_old-Stays (some j) p = on_term-Stays j blur p blur-scr

terminal_focus-Stays : (i : ℕ) (p : Tty) → Stays p (terminal_focus i p)
unfolding terminal_focus
terminal_focus-Stays i p = if-both (Stays p) (is_focused i p.focus) (Stays-refl p) (
    Stays-trans (refocus-Stays (some i) (blur_old-Stays p.focus p))
      (on_term-Stays i gain (record (blur_old p.focus p) { focus = some i }) gain-scr))

put_aside-Stays : (o : Option ℕ) (p : Tty) → Stays p (put_aside o p)
put_aside-Stays none p = Stays-refl p
put_aside-Stays (some j) p =
    on_tab-Stays j (λ t. record t { shown = false; bold = false }) p (λ t. refl)

switch_to-Stays : (w i : ℕ) (p : Tty) → Stays p (switch_to w i p)
unfolding switch_to
switch_to-Stays w i p =
    let q = put_aside (frame_of w p).inner.focused p in
    if-both (Stays p) (holds_focus w i p) (Stays-refl p) (
      Stays-trans (put_aside-Stays (frame_of w p).inner.focused p) (
        Stays-trans
          (on_frame-Stays w
            (λ f. record f {
              inner = record (f.inner) { focused = some i };
              heading = (tab_of i p).process;
            })
            q (λ f. refl))
          (on_tab-Stays i (λ t. record t { shown = true; bold = true; red = false }) _
            (λ t. refl))))

for_some-Stays :
    (f : ℕ → Tty → Tty) (o : Option ℕ) (p : Tty)
    → ((j : ℕ) (q : Tty) → Stays q (f j q))
    → Stays p (for_some f o p)
for_some-Stays f none p h = Stays-refl p
for_some-Stays f (some j) p h = h j p

tab_focus-Stays : (n i : ℕ) (p : Tty) → Stays p (tab_focus n i p)
unfolding tab_focus
tab_focus-Stays zero i p = Stays-refl p
tab_focus-Stays (suc n) i p =
    let q = switch_to (tab_of i p).window i p in
    let r = handle_title (tab_of i q).title i q in
    if-both (Stays p) (is_focused i p.focus) (Stays-refl p) (
      Stays-trans (switch_to-Stays (tab_of i p).window i p) (
        Stays-trans (titled-Stays (tab_of i q).title i q) (
          Stays-trans (terminal_focus-Stays i r)
            (for_some-Stays (tab_focus n) _ (terminal_focus i r) (tab_focus-Stays n)))))

pub focus_on_tab-Stays : (i : ℕ) (p : Tty) → Stays p (focus_on_tab i p)
focus_on_tab-Stays i p = tab_focus-Stays 2 i p

pub window_focus-Stays : (w : ℕ) (p : Tty) → Stays p (window_focus w p)
unfolding window_focus
window_focus-Stays w p = for_some-Stays focus_on_tab _ p focus_on_tab-Stays

pub window_focus_tab-Stays : (next : Bool) (w : ℕ) (p : Tty) → Stays p (window_focus_tab next w p)
unfolding window_focus_tab
window_focus_tab-Stays next w p = for_some-Stays focus_on_tab _ p focus_on_tab-Stays
