-- ===== src/Tty/Resized.antt =====
-- `resize` of a window, and `maximize` there and back.
use genie_tangle.Screen.Tabs.{setup_stops}
use genie_tangle.Terminal.Valid.Switches.{resize-IsSound}
use genie_tangle.Terminal.Valid.{IsSound}
use genie_tangle.Windows.Order.{same_tab}
use genie_tangle.Tty.State.{Tab, Tty, frame_of, no_tab, tab_of, Frame, on_frame, no_frame, for_some}
use genie_tangle.Screen.{at_least_one}
use genie_tangle.Prelude.{
  none, arith, ◌≡◌, length-set, inl, ℕ, subst, get_elem?, ◌<◌, suc, length, some, Bool-cases, inr,
  zero, refl, All, ◌==◌, get_or-set_self, sym, get_or-set_ne, get_or-set_keep, All-from, get_or,
  ◌∙◌, ap, Option, List, All-get_elem?, set,
}
use genie_tangle.Tty.Loops.{each-keeps, for_some-keeps}
use genie_tangle.Tty.Sizes.{
  window_resize, each_tab, tab_resize, each, focused_term, maximize, enlarge, minimize,
  maximize_from, minimize_to,
}
use genie_tangle.Terminal.{resize, refresh, Terminal}
use genie_tangle.Screen.Size as Size

-- The terminal of a tab has a size.
abbrev IsSized : ℕ → ℕ → Tab → Type 0
IsSized cols rows t = (t.term.scr.cols ≡ at_least_one cols) × (t.term.scr.rows ≡ at_least_one rows)

resize-size :
    (cols rows : ℕ) (t : Terminal)
    → ((resize cols rows t).scr.cols ≡ at_least_one cols)
      × ((resize cols rows t).scr.rows ≡ at_least_one rows)
unfolding resize refresh Size.resize Size.resize_rows Size.resize_cols
resize-size cols rows t = (refl, refl)

-- A tab that is there and has the size.
abbrev HasSize : ℕ → ℕ → ℕ → Tty → Type 0
HasSize cols rows j p = (j < length p.tabs) × IsSized cols rows (tab_of j p)

-- The tab itself gets the size.
tab_resize_self :
    (cols rows i : ℕ) (p : Tty) → i < length p.tabs → HasSize cols rows i (tab_resize cols rows i p)
unfolding tab_resize
tab_resize_self cols rows i p h =
    let t = record (tab_of i p) { term = resize cols rows (tab_of i p).term } in
    (
      omega (arith, h, length-set p.tabs i t),
      subst (IsSized cols rows) (sym (get_or-set_self no_tab p.tabs i t h))
          (resize-size cols rows (tab_of i p).term),
    )

-- A tab that has the size keeps it.
tab_resize-HasSize :
    (cols rows j i : ℕ) (p : Tty)
    → HasSize cols rows j p
    → HasSize cols rows j (tab_resize cols rows i p)
tab_resize-HasSize cols rows j i p (h, k) = elim (Bool-cases (j == i)) [
  | inl e ↦
      let same : i ≡ j = ground arith in
      subst (λ (x : ℕ). HasSize cols rows x (tab_resize cols rows i p)) same
        (tab_resize_self cols rows i p (omega (arith, h, same)))
  | inr e ↦
      unfold tab_resize in
      (
        omega (
          arith,
          h,
          length-set p.tabs i (record (tab_of i p) { term = resize cols rows (tab_of i p).term }),
        ),
        subst (IsSized cols rows) (sym (get_or-set_ne no_tab p.tabs i j _ e)) k,
      )
]

tab_resize-count :
    (cols rows t i : ℕ) (p : Tty) → t < length p.tabs → t < length (tab_resize cols rows i p).tabs
unfolding tab_resize
tab_resize-count cols rows t i p h = omega (
  arith,
  h,
  length-set p.tabs i (record (tab_of i p) { term = resize cols rows (tab_of i p).term }),
)

each-frames : (cols rows w n : ℕ) (p : Tty) → (each (tab_resize cols rows) w n p).frames ≡ p.frames
each-frames cols rows w n p =
    each-keeps (λ (q : Tty). q.frames ≡ p.frames) (tab_resize cols rows) w n p
      (λ j q h. unfold tab_resize in h) refl

-- The tabs at the first `n` places.
each-HasSize :
    (cols rows w n k t : ℕ) (p : Tty)
    → k < n
    → get_elem? (frame_of w p).inner.tabs k ≡ some t
    → t < length p.tabs
    → HasSize cols rows t (each (tab_resize cols rows) w n p)
unfolding each
each-HasSize cols rows w zero k t p h e i = absurd (omega (arith, h))
each-HasSize cols rows w (suc n) k t p h e i =
    let f = tab_resize cols rows in
    let o = get_elem? (frame_of w p).inner.tabs n in
    elim (Bool-cases (k == n)) [
      | inl same ↦
          let there : o ≡ some t =
            ap (get_elem? (frame_of w p).inner.tabs) (same_tab n k (ground arith)) ∙ e in
          each-keeps (HasSize cols rows t) f w n (for_some f o p) (tab_resize-HasSize cols rows t) (
            subst (λ (x : Option ℕ). HasSize cols rows t (for_some f x p)) (sym there)
              (tab_resize_self cols rows t p i))
      | inr other ↦
          let frames : (for_some f o p).frames ≡ p.frames =
            for_some-keeps (λ (q : Tty). q.frames ≡ p.frames) f o p
              (λ j q g. unfold tab_resize in g) refl in
          each-HasSize cols rows w n k t (for_some f o p) (ground arith) (rw frames e)
            (for_some-keeps (λ (q : Tty). t < length q.tabs) f o p (tab_resize-count cols rows t) i)
    ]

-- A tab that is there, with a sound terminal of which the saved row lies on the new screen.
abbrev pub IsReady : ℕ → ℕ → Tty → Type 0
IsReady rows j p =
    (j < length p.tabs)
    × IsSound (tab_of j p).term
    × ((tab_of j p).term.scr.saved_y < at_least_one rows)

resize-saved : (cols rows : ℕ) (t : Terminal) → (resize cols rows t).scr.saved_y ≡ t.scr.saved_y
unfolding resize refresh Size.resize Size.resize_rows Size.resize_cols setup_stops
resize-saved cols rows t = refl

tab_resize-IsReady :
    (cols rows j i : ℕ) (p : Tty) → IsReady rows j p → IsReady rows j (tab_resize cols rows i p)
unfolding tab_resize
tab_resize-IsReady cols rows j i p (h, v, s) =
    let new = record (tab_of i p) { term = resize cols rows (tab_of i p).term } in
    let n = length-set p.tabs i new in
    elim (Bool-cases (j == i)) [
      | inl e ↦
          let same : i ≡ j = ground arith in
          let there : tab_of j (record p { tabs = set p.tabs i new }) ≡ new =
            ap (λ (k : ℕ). get_or (set p.tabs i new) k no_tab) (sym same)
            ∙ get_or-set_self no_tab p.tabs i new (omega (arith, h, same)) in
          let sound : IsSound new.term = rw same (resize-IsSound cols rows (tab_of j p).term v s) in
          let saved : new.term.scr.saved_y < at_least_one rows =
            rw (resize-saved cols rows (tab_of i p).term, same) s in
          (omega (arith, h, n), rw there sound, rw there saved)
      | inr e ↦
          let there = get_or-set_ne no_tab p.tabs i j new e in
          (omega (arith, h, n), rw there v, rw there s)
    ]

-- The terminals of the tabs of a window are sound, and their saved rows lie on the new screen. Then
-- `resize` of the window throws in none of them: every one gets the new size, raised to one where it
-- is 0, and stays sound.
pub window_resize-IsSized :
    (cols rows w : ℕ) (p : Tty)
    → All (λ t. IsReady rows t p) (frame_of w p).inner.tabs
    → let q = window_resize cols rows w p in
      All
        (λ t. IsSized cols rows (tab_of t q) × IsSound (tab_of t q).term)
        (frame_of w p).inner.tabs
unfolding window_resize each_tab each
window_resize-IsSized cols rows w p h =
    let p1 = on_frame w (λ f. record f { cols = cols; rows = rows }) p in
    let same : (frame_of w p1).inner.tabs ≡ (frame_of w p).inner.tabs =
      get_or-set_keep (λ (f : Frame). f.inner.tabs) (λ f. record f { cols = cols; rows = rows })
        no_frame p.frames w w (λ f. refl) in
    let n = length (frame_of w p1).inner.tabs in
    All-from _ (frame_of w p).inner.tabs (λ k t i e.
      let r = All-get_elem? (λ t. IsReady rows t p) (frame_of w p).inner.tabs k h e in
      (
        (each-HasSize cols rows w n k t p1 (rw same i) (rw same e) (r.0)).1,
        (each-keeps (IsReady rows t) (tab_resize cols rows) w n p1 (tab_resize-IsReady cols rows t)
            r).1,
      ))

-- The window itself.
window_resize-frame :
    (cols rows w : ℕ) (p : Tty)
    → w < length p.frames
    → (frame_of w (window_resize cols rows w p)
        ≡ record (frame_of w p) { cols = cols; rows = rows })
      × (length (window_resize cols rows w p).frames ≡ length p.frames)
unfolding window_resize each_tab
window_resize-frame cols rows w p h =
    let f = record (frame_of w p) { cols = cols; rows = rows } in
    let p1 = on_frame w (λ f. record f { cols = cols; rows = rows }) p in
    let same = each-frames cols rows w (length (frame_of w p1).inner.tabs) p1 in
    (
      ap (λ (fs : List Frame). get_or fs w no_frame) same ∙ get_or-set_self no_frame p.frames w f h,
      ap (λ (fs : List Frame). length fs) same ∙ length-set p.frames w f,
    )

-- Maximizing a window that is there and not maximized, and maximizing it again, whatever size the page
-- gives, brings it back to the size that its focused terminal had before, and it is not maximized.
pub maximize-twice :
    (c r c' r' w : ℕ) (p : Tty)
    → w < length p.frames
    → (frame_of w p).minimize ≡ none
    → let q = maximize c' r' w (maximize c r w p) in
      ((frame_of w q).cols ≡ (focused_term w p).scr.cols)
      × ((frame_of w q).rows ≡ (focused_term w p).scr.rows)
      × ((frame_of w q).minimize ≡ none)
unfolding maximize minimize enlarge
maximize-twice c r c' r' w p h e =
    let s = (focused_term w p).scr in
    let marked = on_frame w (λ f. record f { minimize = some (s.cols, s.rows) }) p in
    let p1 = window_resize c r w marked in
    let first : maximize c r w p ≡ p1 = ap (λ (o : Option (ℕ × ℕ)). maximize_from o c r w p) e in
    let count : w < length marked.frames = omega (
      arith,
      h,
      length-set p.frames w (record (frame_of w p) { minimize = some (s.cols, s.rows) }),
    ) in
    let (f, n) = window_resize-frame c r w marked count in
    let there : (frame_of w p1).minimize ≡ some (s.cols, s.rows) =
      ap (λ (x : Frame). x.minimize) f
      ∙ ap (λ (x : Frame). x.minimize) (get_or-set_self no_frame p.frames w _ h) in
    let unmarked = on_frame w (λ f. record f { minimize = none }) p1 in
    let second : maximize c' r' w p1 ≡ window_resize s.cols s.rows w unmarked =
      ap (λ (o : Option (ℕ × ℕ)). maximize_from o c' r' w p1) there
      ∙ ap (λ (o : Option (ℕ × ℕ)). minimize_to o w p1) there in
    let whole = ap (maximize c' r' w) first ∙ second in
    let i : w < length p1.frames = omega (arith, count, n) in
    let j : w < length unmarked.frames =
      omega (arith, i, length-set p1.frames w (record (frame_of w p1) { minimize = none })) in
    let (g, k) = window_resize-frame s.cols s.rows w unmarked j in
    let last = ap (λ (q : Tty). frame_of w q) whole ∙ g in
    (
      ap (λ (x : Frame). x.cols) last,
      ap (λ (x : Frame). x.rows) last,
      ap (λ (x : Frame). x.minimize) last
          ∙ ap (λ (x : Frame). x.minimize) (get_or-set_self no_frame p1.frames w _ i),
    )
