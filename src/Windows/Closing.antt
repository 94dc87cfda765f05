-- ===== src/Windows/Closing.antt =====
-- A tab is destroyed: the list, and the focus.
use genie_tangle.Windows.Focus.{IsFocusedAt, at_place, at_place-IsFocusedAt, last_at}
use genie_tangle.Windows.Tabs.{
  focus_target, destroy_tab, focus_tab, Window, focused_index, is_focused, focus_on,
}
use genie_tangle.Windows.Order.{
  IsDistinct, IsAbsent, without, same_tab, index_of-absent, splice-without,
}
use genie_tangle.Prelude.{
  zero, ℕ, List, length, ◌∷◌, inl, arith, Bool-cases, ◌<◌, get_or, suc, [], refl, false, ◌==◌,
  if-both, inr, ◌≡◌, some, ◌∙◌, ◌-◌, sym, none, Option, ap, if◌then◌else◌, if◌then◌else◌,
  if◌then◌else◌,
}

without-IsAbsent : (x tab : ℕ) (tabs : List ℕ) → IsAbsent x tabs → IsAbsent x (without tab tabs)
without-IsAbsent x tab [] a = tt
without-IsAbsent x tab (t ∷ ts) (e, a) =
    let h = without-IsAbsent x tab ts a in if-both (IsAbsent x) (t == tab) h (e, h)

without-IsDistinct : (tab : ℕ) (tabs : List ℕ) → IsDistinct tabs → IsDistinct (without tab tabs)
without-IsDistinct tab [] d = tt
without-IsDistinct tab (t ∷ ts) (a, d) =
    let h = without-IsDistinct tab ts d in
    if-both IsDistinct (t == tab) h (without-IsAbsent t tab ts a, h)

without-gone : (tab : ℕ) (tabs : List ℕ) → IsAbsent tab (without tab tabs)
without-gone tab [] = tt
without-gone tab (t ∷ ts) = elim (Bool-cases (t == tab)) [
  | inl e ↦ rw e (without-gone tab ts)
  | inr e ↦ rw e (e, without-gone tab ts)
]

-- The place of a tab.
abbrev Stands : ℕ → List ℕ → Type 0
Stands f tabs = (j : ℕ) × (j < length tabs) × (get_or tabs j 0 ≡ f)

Stands-cons : (f t : ℕ) (ts : List ℕ) → Stands f ts → Stands f (t ∷ ts)
Stands-cons f t ts (j, i, p) = (suc j, omega (arith, i), p)

without-Stands :
    (f tab : ℕ) (tabs : List ℕ) (j : ℕ)
    → (f == tab) ≡ false
    → j < length tabs
    → get_or tabs j 0 ≡ f
    → Stands f (without tab tabs)
without-Stands f tab [] j e h p = absurd (omega (arith, h))
without-Stands f tab (t ∷ ts) zero e h p = rw (p, e) (0, omega arith, refl)
without-Stands f tab (t ∷ ts) (suc j) e h p =
    let rest = without-Stands f tab ts j e (omega (arith, h)) p in
    if-both (Stands f) (t == tab) rest (Stands-cons f t (without tab ts) rest)

-- The focus is on a tab of the window, if it has any.
abbrev pub HasFocus : Window → Type 0
HasFocus w = IsDistinct w.tabs × (0 < length w.tabs → (i : ℕ) × IsFocusedAt i w)

focus_on-tabs : (o : Option ℕ) (w : Window) → (focus_on o w).tabs ≡ w.tabs
focus_on-tabs none w = refl
focus_on-tabs (some tab) w = refl

-- A window after a tab that had the focus is gone from its list.
module _ (tab : ℕ) (w : Window) (e : w.focused ≡ some tab) (a : IsAbsent tab w.tabs)
    (d : IsDistinct w.tabs) where
  nothing_found : focused_index w ≡ none
  nothing_found = rw e (index_of-absent w.tabs tab a)

  last_focused : 0 < length w.tabs → focus_tab false w ≡ at_place (length w.tabs - 1) w
  unfolding focus_tab focus_target
  last_focused h = rw (nothing_found, last_at w.tabs h) refl

  focus_after-HasFocus : ((focus_tab false w).tabs ≡ w.tabs) × HasFocus (focus_tab false w)
  unfolding focus_tab
  focus_after-HasFocus =
      let same = focus_on-tabs (focus_target false w) w in
      (
        same,
        (
          rw same d,
          λ h.
              let h' : 0 < length w.tabs = rw (← same) h in
              (
                length w.tabs - 1,
                rw (last_focused h')
                    (at_place-IsFocusedAt (length w.tabs - 1) w d (omega (arith, h'))),
              ),
        ),
      )

-- The window without the tab, and the focus where it was.
abbrev left : ℕ → Window → Window
left tab w = record w { tabs = without tab w.tabs }

destroyed :
    (tab i : ℕ) (w : Window)
    → IsFocusedAt i w
    → destroy_tab tab w
      ≡ (if get_or w.tabs i 0 == tab then focus_tab false (left tab w) else left tab w)
unfolding destroy_tab
destroyed tab i w v =
    ap
      (λ (ts : List ℕ).
        let w' = record w { tabs = ts } in
        if is_focused tab w.focused then focus_tab false w' else w')
      (splice-without w.tabs tab v.distinct)
    ∙ ap (λ (o : Option ℕ). if is_focused tab o then focus_tab false (left tab w) else left tab w)
        v.focus

-- Destroying a tab of a window in which no tab stands twice and a tab has the focus takes just this tab
-- out of the list, keeps the others in their order, and where a tab is left, one of the window has
-- the focus.
pub destroy_tab-HasFocus :
    (tab i : ℕ) (w : Window)
    → IsFocusedAt i w
    → ((destroy_tab tab w).tabs ≡ without tab w.tabs) × HasFocus (destroy_tab tab w)
destroy_tab-HasFocus tab i w v = elim (Bool-cases (get_or w.tabs i 0 == tab)) [
  | inl e ↦
      let f : w.focused ≡ some tab = v.focus ∙ ap some (same_tab (get_or w.tabs i 0) tab e) in
      rw (destroyed tab i w v, e) (focus_after-HasFocus tab (left tab w) f gone d)
  | inr e ↦
      let (j, h, p) = without-Stands (get_or w.tabs i 0) tab w.tabs i e v.inside refl in
      rw (destroyed tab i w v, e)
        (
          refl,
          (d, λ q. (j, record { distinct = d; inside = h; focus = v.focus ∙ ap some (sym p) })),
        )
]
  where
    gone : IsAbsent tab (without tab w.tabs)
    gone = without-gone tab w.tabs

    d : IsDistinct (without tab w.tabs)
    d = without-IsDistinct tab w.tabs v.distinct
