-- ===== src/Tty/Focused.antt =====
-- Which tab has the focus after `focus`, and how often the two `focus` call each other.
use genie_tangle.Tty.State.{frame_of, Tty, tab_of, Frame, no_frame, holds_focus, for_some, on_tab}
use genie_tangle.Tty.Titles.{handle_title}
use genie_tangle.Windows.{Window, is_focused, sanitize}
use genie_tangle.Prelude.{
  length, ℕ, if-false, ◌+◌, if-true, if◌then◌else◌, refl, ◌∙◌, some, sym, get_or, ap, Option, ◌≡◌,
  get_or-set_self, Bool-cases, if◌then◌else◌, inr, true, get_or-set_keep, suc, if-both, inl, ◌<◌,
  none, is_empty, if◌then◌else◌, List, arith,
}
use genie_tangle.Tty.Focus.{blur_old, switch_to, put_aside, tab_focus, terminal_focus, focus_on_tab}

-- The tabs of every window, and which of them it has in front, stay.
abbrev SameInner : Tty → Tty → Type 0
SameInner p q = (w : ℕ) → (frame_of w q).inner ≡ (frame_of w p).inner

titled-inner : (title : List ℕ) (i : ℕ) (p : Tty) → SameInner p (handle_title title i p)
unfolding handle_title
titled-inner title i p =
    let q = on_tab i (λ t. record t { title = sanitize title }) p in
    let w = (tab_of i p).window in
    if-both (SameInner p) (is_empty title) (λ v. refl)
      (if-both (SameInner p) (holds_focus w i q)
        (λ v.
          get_or-set_keep (λ (f : Frame). f.inner) (λ f. record f { tip = sanitize title }) no_frame
            p.frames w v (λ f. refl))
        (λ v. refl))

blur_old-frames : (o : Option ℕ) (p : Tty) → (blur_old o p).frames ≡ p.frames
blur_old-frames none p = refl
blur_old-frames (some j) p = refl

terminal_focus-frames : (i : ℕ) (p : Tty) → (terminal_focus i p).frames ≡ p.frames
unfolding terminal_focus
terminal_focus-frames i p =
    if-both (λ (q : Tty). q.frames ≡ p.frames) (is_focused i p.focus) refl
      (blur_old-frames p.focus p)

same_focus_of : (i : ℕ) (o : Option ℕ) → is_focused i o ≡ true → o ≡ some i
same_focus_of i none e = cc
same_focus_of i (some j) e = ap some (ground arith)

is_focused_self : (i : ℕ) → is_focused i (some i) ≡ true
is_focused_self i = ground arith

terminal_focus-focus : (i : ℕ) (p : Tty) → (terminal_focus i p).focus ≡ some i
unfolding terminal_focus
terminal_focus-focus i p = elim (Bool-cases (is_focused i p.focus)) [
  | inl e ↦ rw e (same_focus_of i p.focus e)
  | inr e ↦ rw e refl
]

-- What `Tab.prototype.focus` has done before it turns to its window.
abbrev focused_first : ℕ → Tty → Tty
focused_first i p =
    let q = switch_to (tab_of i p).window i p in
    terminal_focus i (handle_title (tab_of i q).title i q)

put_aside-frames : (o : Option ℕ) (p : Tty) → (put_aside o p).frames ≡ p.frames
put_aside-frames none p = refl
put_aside-frames (some j) p = refl

switch_to-inner :
    (w i : ℕ) (p : Tty)
    → w < length p.frames
    → (frame_of w (switch_to w i p)).inner.focused ≡ some i
unfolding switch_to
switch_to-inner w i p h =
    let o = (frame_of w p).inner.focused in
    let l : w < length (put_aside o p).frames = rw (put_aside-frames o p) h in
    elim (Bool-cases (holds_focus w i p)) [
      | inl e ↦ rw e (same_focus_of i o e)
      | inr e ↦ rw e (
          ap (λ (f : Frame). f.inner.focused)
            (get_or-set_self no_frame (put_aside o p).frames w _ l))
    ]

focused_first-inner :
    (i : ℕ) (p : Tty)
    → (tab_of i p).window < length p.frames
    → (frame_of (tab_of i p).window (focused_first i p)).inner.focused ≡ some i
focused_first-inner i p h =
    let w = (tab_of i p).window in
    let q = switch_to w i p in
    let r = handle_title (tab_of i q).title i q in
    ap (λ (fs : List Frame). (get_or fs w no_frame).inner.focused) (terminal_focus-frames i r)
    ∙ ap (λ (x : Window). x.focused) (titled-inner (tab_of i q).title i q w)
    ∙ switch_to-inner w i p h

-- Two rounds, or more, come to this.
abbrev focused_once : ℕ → Tty → Tty
focused_once i p = if is_focused i p.focus then p else focused_first i p

focused_once-focus : (i : ℕ) (p : Tty) → (focused_once i p).focus ≡ some i
focused_once-focus i p = elim (Bool-cases (is_focused i p.focus)) [
  | inl e ↦
      ap (λ (q : Tty). q.focus) (if-true (is_focused i p.focus) p (focused_first i p) e)
      ∙ same_focus_of i p.focus e
  | inr e ↦
      ap (λ (q : Tty). q.focus) (if-false (is_focused i p.focus) p (focused_first i p) e)
      ∙ terminal_focus-focus i _
]

tab_focus-once :
    (n i : ℕ) (p : Tty)
    → (tab_of i p).window < length p.frames
    → tab_focus (suc (suc n)) i p ≡ focused_once i p
unfolding tab_focus
tab_focus-once n i p h =
    let r = focused_first i p in
    let there : is_focused i r.focus ≡ true =
      ap (is_focused i) (terminal_focus-focus i _) ∙ is_focused_self i in
    ap (λ (q : Tty). if is_focused i p.focus then p else q)
      (ap (λ (o : Option ℕ). for_some (tab_focus (suc n)) o r) (focused_first-inner i p h)
        ∙ if-true (is_focused i r.focus) r _ there)

-- `focus` of a tab whose window is there ends: the tab and its window call each other once, and any
-- number of rounds from two on gives the same. After it the tab has the focus; where it did not have
-- it before, it is also the focused tab of its window, and otherwise that one stays.
pub focus_on_tab-focus :
    (n i : ℕ) (p : Tty)
    → (tab_of i p).window < length p.frames
    → (tab_focus (2 + n) i p ≡ focus_on_tab i p)
      × ((focus_on_tab i p).focus ≡ some i)
      × ((frame_of (tab_of i p).window (focus_on_tab i p)).inner.focused ≡ (
          if is_focused i p.focus then (frame_of (tab_of i p).window p).inner.focused else some i))
focus_on_tab-focus n i p h =
    let e = tab_focus-once 0 i p h in
    let two : 2 + n ≡ suc (suc n) = omega arith in
    (
      ap (λ (k : ℕ). tab_focus k i p) two ∙ tab_focus-once n i p h ∙ sym e,
      ap (λ (q : Tty). q.focus) e ∙ focused_once-focus i p,
      ap (λ (r : Tty). (frame_of (tab_of i p).window r).inner.focused) e
          ∙ elim (Bool-cases (is_focused i p.focus)) [
            | inl q ↦ rw q refl
            | inr q ↦ rw q (focused_first-inner i p h)
          ],
    )
