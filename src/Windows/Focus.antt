-- ===== src/Windows/Focus.antt =====
-- `nextTab` and `previousTab`.
use genie_tangle.Windows.Order.{IsDistinct, index_of-get_or}
use genie_tangle.Windows.Tabs.{Window, focus_tab, focus_target, focused_index, last_tab}
use genie_tangle.Prelude.{
  get_or, ◌≡◌, arith, if◌then◌else◌, false, zero, if◌then◌else◌, if◌then◌else◌, ◌<◌, inr,
  get_elem?-get_or, get_elem?-none, suc, ℕ, ◌-◌, length, ◌+◌, Bool-cases, some, ltb, true, refl,
  inl, ◌==◌, ◌∙◌, ap, Option, ◌∷◌, [], List, sym,
}

-- The tab at the place `i` has the focus, and no tab stands twice.
pub record IsFocusedAt (i : ℕ) (w : Window) : Type 0 where
  pub distinct : IsDistinct w.tabs
  pub inside : i < length w.tabs
  pub focus : w.focused ≡ some (get_or w.tabs i 0)

-- The places behind and before a place, round the ends.
abbrev pub next_place : ℕ → ℕ → ℕ
next_place n i = if ltb (i + 1) n then i + 1 else 0

abbrev pub previous_place : ℕ → ℕ → ℕ
previous_place n i = if i == 0 then n - 1 else i - 1

-- The window with the focus on the tab at a place.
abbrev pub at_place : ℕ → Window → Window
at_place i w = record w { focused = some (get_or w.tabs i 0) }

focused_index-at : (i : ℕ) (w : Window) → IsFocusedAt i w → focused_index w ≡ some i
focused_index-at i w v = rw v.focus (index_of-get_or w.tabs i v.distinct v.inside)

next_target :
    (i : ℕ) (w : Window)
    → IsFocusedAt i w
    → focus_target true w ≡ some (get_or w.tabs (next_place (length w.tabs) i) 0)
unfolding focus_target
next_target i w v = elim (Bool-cases (ltb (i + 1) (length w.tabs))) [
  | inl e ↦ rw (focused_index-at i w v, e, get_elem?-get_or 0 w.tabs (i + 1) (ground arith)) refl
  | inr e ↦
      rw
        (
          focused_index-at i w v,
          e,
          get_elem?-none w.tabs (i + 1) (ground arith),
          get_elem?-get_or 0 w.tabs 0 (omega (arith, v.inside)),
        )
        refl
]

pub last_at :
    (tabs : List ℕ) → 0 < length tabs → last_tab tabs ≡ some (get_or tabs (length tabs - 1) 0)
last_at [] h = absurd (omega (arith, h))
last_at (t ∷ ts) h =
    let e : suc (length ts) - 1 ≡ length ts = omega arith in
    rw (e, get_elem?-get_or 0 (t ∷ ts) (length ts) (omega arith)) refl

previous_target :
    (i : ℕ) (w : Window)
    → IsFocusedAt i w
    → focus_target false w ≡ some (get_or w.tabs (previous_place (length w.tabs) i) 0)
unfolding focus_target
previous_target zero w v =
    let e : previous_place (length w.tabs) 0 ≡ length w.tabs - 1 = ground arith in
    rw (focused_index-at zero w v, e, last_at w.tabs v.inside) refl
previous_target (suc i) w v =
    let e : previous_place (length w.tabs) (suc i) ≡ i = ground arith in
    rw (focused_index-at (suc i) w v, e, get_elem?-get_or 0 w.tabs i (omega (arith, v.inside))) refl

-- `focusTab` moves the focus to the next or to the previous tab, round the ends: where no tab stands
-- twice and the tab at a place has the focus, the one at the place behind or before it gets it.
focus_tab-place :
    (i : ℕ) (w : Window)
    → IsFocusedAt i w
    → (focus_tab true w ≡ at_place (next_place (length w.tabs) i) w)
      × (focus_tab false w ≡ at_place (previous_place (length w.tabs) i) w)
unfolding focus_tab
focus_tab-place i w v = (rw (next_target i w v) refl, rw (previous_target i w v) refl)

pub at_place-IsFocusedAt :
    (j : ℕ) (w : Window) → IsDistinct w.tabs → j < length w.tabs → IsFocusedAt j (at_place j w)
at_place-IsFocusedAt j w d h = record { distinct = d; inside = h; focus = refl }

-- The focus at the place where it was is the window as it was.
same_place : (i j : ℕ) (w : Window) → IsFocusedAt i w → j ≡ i → at_place j w ≡ w
same_place i j w v e =
    ap (λ (k : ℕ). at_place k w) e ∙ ap (λ (f : Option ℕ). record w { focused = f }) (sym v.focus)

-- Where no tab stands twice and a tab has the focus, the next tab and then the previous one bring the
-- focus back to it, and so do the previous tab and then the next one.
focus_tab-round :
    (i : ℕ) (w : Window)
    → IsFocusedAt i w
    → (focus_tab false (focus_tab true w) ≡ w) × (focus_tab true (focus_tab false w) ≡ w)
focus_tab-round i w v = (
  ap (focus_tab false) (focus_tab-place i w v).0
      ∙ (focus_tab-place next (at_place next w)
          (at_place-IsFocusedAt next w v.distinct (ground (arith, v.inside)))).1
      ∙ same_place i (previous_place n next) w v (ground (arith, v.inside)),
  ap (focus_tab true) (focus_tab-place i w v).1
      ∙ (focus_tab-place previous (at_place previous w)
          (at_place-IsFocusedAt previous w v.distinct (ground (arith, v.inside)))).0
      ∙ same_place i (next_place n previous) w v (ground (arith, v.inside)),
)
  where
    n : ℕ
    n = length w.tabs

    next : ℕ
    next = next_place n i

    previous : ℕ
    previous = previous_place n i
