-- ===== src/Tty/Screens.antt =====
-- What comes for one tab, on the screens of all tabs.
use genie_tangle.Screen.{Screen}
use genie_tangle.Tty.Stays.{focus_on_tab-Stays, titled-Stays, lasting}
use genie_tangle.Terminal.Write.{write}
use genie_tangle.Tty.State.{tab_of, on_tab, holds_focus, no_tab, on_term, Tty, Tab}
use genie_tangle.Terminal.{retitle, flash, output, repaint, Effect, Terminal, take_focus}
use genie_tangle.Tty.Output.{perform, run_tab, perform_all, tab_write}
use genie_tangle.Prelude.{
  Outcome, ◌<◌, arith, get_or-set_self, false, fault, [], refl, ◌≡◌, ap, ◌>>=◌, ◌∷◌, if◌then◌else◌,
  if◌then◌else◌, Bool, ◌==◌, List, ok, get_or-set_keep, ◌∙◌, sym, if◌then◌else◌, length-set, drop,
  get_or-set_ne, subst, if-false, ℕ, length, if-both, true,
}

-- Every tab has the window, the id and the screen that it had.
abbrev SameTabs : Tty → Tty → Type 0
SameTabs p q = (j : ℕ) → lasting (tab_of j q) ≡ lasting (tab_of j p)

perform-SameTabs : (e : Effect) (i : ℕ) (p : Tty) → SameTabs p (perform e i p)
perform-SameTabs (repaint a b) i p = λ j. refl
perform-SameTabs (retitle title) i p = (titled-Stays title i p).same_tab
perform-SameTabs flash i p = λ j. refl
perform-SameTabs take_focus i p = (focus_on_tab-Stays i p).same_tab
perform-SameTabs (output text) i p =
    if-both (SameTabs p) (tab_of i p).destroyed (λ j. refl) (λ j. refl)

perform_all-SameTabs : (es : List Effect) (i : ℕ) (p : Tty) → SameTabs p (perform_all es i p)
unfolding perform_all
perform_all-SameTabs [] i p = λ j. refl
perform_all-SameTabs (e ∷ es) i p =
    λ j. perform_all-SameTabs es i (perform e i p) j ∙ perform-SameTabs e i p j

-- The page shows `s` in the tab `i`, and in every other tab what it showed before.
abbrev pub ShowsIn : ℕ → Screen → Tty → Tty → Type 0
ShowsIn i s p q =
    ((tab_of i q).term.scr ≡ s)
    × ((j : ℕ) → (j == i) ≡ false → (tab_of j q).term.scr ≡ (tab_of j p).term.scr)

-- A run of the page does what a run of the terminal does.
abbrev pub Follows : ℕ → Tty → Outcome Terminal → Outcome Tty → Type 0
Follows i p (ok u) (ok q) = ShowsIn i u.scr p q
Follows i p (fault e) (fault d) = d ≡ e
Follows i p (ok u) (fault d) = ⊥
Follows i p (fault e) (ok q) = ⊥

performed :
    (es : List Effect) (i : ℕ) (u : Terminal) (p : Tty)
    → i < length p.tabs
    → ShowsIn i u.scr p (perform_all es i (on_term i (λ _. u) p))
performed es i u p h =
    let same = perform_all-SameTabs es i (on_term i (λ _. u) p) in
    (
      ap (λ (l : ℕ × List ℕ × Bool × Screen). l.3) (same i)
          ∙ ap (λ (t : Tab). t.term.scr) (get_or-set_self no_tab p.tabs i _ h),
      λ j d.
          ap (λ (l : ℕ × List ℕ × Bool × Screen). l.3) (same j)
          ∙ ap (λ (t : Tab). t.term.scr) (get_or-set_ne no_tab p.tabs i j _ d),
    )

run_tab-Follows :
    (i : ℕ) (f : Terminal → Outcome Terminal) (p : Tty)
    → i < length p.tabs
    → Follows i p (f (tab_of i p).term) (run_tab i f p)
unfolding run_tab
run_tab-Follows i f p h = ran (f (tab_of i p).term)
  where
    effects : List Effect
    effects = (tab_of i p).term.io.effects

    ran :
        (m : Outcome Terminal)
        → Follows i p m (
            m >>= λ u.
            ok (perform_all (drop (length effects) u.io.effects) i (on_term i (λ _. u) p)))
    ran (ok u) = performed (drop (length effects) u.io.effects) i u p h
    ran (fault e) = refl

-- The button of a tab may have turned red before.
abbrev SameTerms : Tty → Tty → Type 0
SameTerms p q = (length q.tabs ≡ length p.tabs) × ((j : ℕ) → (tab_of j q).term ≡ (tab_of j p).term)

Follows-SameTerms :
    (i : ℕ) (p q : Tty) (m : Outcome Terminal) (o : Outcome Tty)
    → SameTerms p q
    → Follows i q m o
    → Follows i p m o
Follows-SameTerms i p q (ok u) (ok r) (n, e) (h, k) =
    (h, λ j d. k j d ∙ ap (λ (t : Terminal). t.scr) (e j))
Follows-SameTerms i p q (fault e) (fault d) s h = h
Follows-SameTerms i p q (ok u) (fault d) s h = h
Follows-SameTerms i p q (fault e) (ok r) s h = h

redden-SameTerms :
    (i : ℕ) (b : Bool) (p : Tty)
    → SameTerms p (if b then p else on_tab i (λ t. record t { red = true }) p)
redden-SameTerms i b p =
    if-both (SameTerms p) b (refl, λ j. refl)
      (
        length-set p.tabs i _,
        λ j.
            get_or-set_keep (λ (t : Tab). t.term) (λ t. record t { red = true }) no_tab p.tabs i j
              (λ t. refl),
      )

-- What the server sends to a tab that is not destroyed does to its screen just what `write` does in its
-- terminal, throws just where that throws, and leaves the screens of all other tabs.
pub tab_write-Follows :
    (text : List ℕ) (i : ℕ) (p : Tty)
    → i < length p.tabs
    → (tab_of i p).destroyed ≡ false
    → Follows i p (write text (tab_of i p).term) (tab_write text i p)
unfolding tab_write
tab_write-Follows text i p h live =
    let b = holds_focus (tab_of i p).window i p in
    let q = if b then p else on_tab i (λ t. record t { red = true }) p in
    let s = redden-SameTerms i b p in
    let ran = run_tab-Follows i (write text) q (omega (arith, h, s.0)) in
    subst (Follows i p (write text (tab_of i p).term))
      (sym (if-false (tab_of i p).destroyed (ok p) (run_tab i (write text) q) live))
      (Follows-SameTerms i p q (write text (tab_of i p).term) (run_tab i (write text) q) s (
        subst (λ (t : Terminal). Follows i q (write text t) (run_tab i (write text) q)) (s.1 i)
          ran))
