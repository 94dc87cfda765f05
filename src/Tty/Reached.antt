-- ===== src/Tty/Reached.antt =====
-- The wheel over a tab and the keys, in every page that events lead to.
use genie_tangle.Prelude.{
  Bool, ok, ℕ, if-both, Outcome, if-true, none, Option, ◌≡◌, some, false, ◌∙◌, get_or-set_both,
  refl, get_or-push_both, not, ap,
}
use genie_tangle.Tty.State.{Tty, tab_of, no_tab, Tab}
use genie_tangle.Tty.Wheel.{scrollable, tab_wheel}
use genie_tangle.Tty.Events.{Reached, empty_page}
use genie_tangle.Tty.Kept.{IsClosed}
use genie_tangle.Tty.Runs.{Reached-keeps}
use genie_tangle.Tty.Making.{fresh_tab, create_window}

-- No tab has the name of a program that scrolls by keys.
abbrev pub LacksScrollable : Tty → Type 0
LacksScrollable p = (j : ℕ) → scrollable (tab_of j p).process ≡ false

LacksScrollable-IsClosed : IsClosed LacksScrollable
unfolding scrollable
LacksScrollable-IsClosed = record {
  tab_kept = λ i f p k h j.
      get_or-set_both (λ (t : Tab). scrollable t.process ≡ false) no_tab p.tabs i j (f (tab_of i p))
        (ap scrollable (k (tab_of i p)) ∙ h i) (h j);
  name_kept = λ name i p n h j.
      get_or-set_both (λ (t : Tab). scrollable t.process ≡ false) no_tab p.tabs i j _ n (h j);
  tab_added = λ w p h j.
      get_or-push_both (λ (t : Tab). scrollable t.process ≡ false) no_tab p.tabs j (fresh_tab w p)
        refl refl (h j);
  focus_kept = λ i p h. h;
  frames_kept = λ fs p h. h;
  windows_kept = λ ws p h. h;
  terms_kept = λ ts p h. h;
  published_kept = λ ms p h. h;
}

-- In every page that events lead to, without a throw, from the page without windows, the wheel over a
-- tab types no key: no tab ever has the name of a program that scrolls by keys, since the page
-- itself names the processes.
pub tab_wheel-reached :
    (mac turned_up : Bool) (i : ℕ) (p : Tty)
    → Reached empty_page p
    → tab_wheel mac turned_up i p ≡ ok p
unfolding tab_wheel scrollable
tab_wheel-reached mac turned_up i p r =
    let h = Reached-keeps LacksScrollable LacksScrollable-IsClosed empty_page p r (λ j. refl) in
    if-both (λ (m : Outcome Tty). m ≡ ok p) (tab_of i p).term.modes.mouse_events refl
      (if-true (not (scrollable (tab_of i p).process)) (ok p) _ (ap not (h i)))

-- Some tab has the focus.
abbrev HasTab : Option ℕ → Type 0
HasTab none = ⊥
HasTab (some i) = Unit {0}

abbrev HasKeys : Tty → Type 0
HasKeys p = HasTab p.focus

-- The page with its first window.
abbrev pub first_page : Tty
first_page = create_window empty_page
