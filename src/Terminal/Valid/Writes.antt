-- ===== src/Terminal/Valid/Writes.antt =====
-- `write` of a whole text, and the constructor.

use genie_tangle.Terminal.Valid.Steps.{CharFits, DrawnResult, step-IsDrawn}
use genie_tangle.Screen.Size.{unset}
use genie_tangle.Screen.Valid.Sizes.{construct-IsValid, construct-IsFull}
use genie_tangle.Screen.{max_range, update_range}
use genie_tangle.Terminal.Write.{feed, step, end_write, start_write, write}
use genie_tangle.Screen.Valid.{Kept-refl, Kept, InRange}
use genie_tangle.Screen.Valid.Scrolls.{update_range-Kept}
use genie_tangle.Terminal.State.{
  Terminal, initialise, on_screen, new_terminal, Effect, refresh, repaint,
}
use genie_tangle.Terminal.Valid.Switches.{refresh-IsDrawn}
use genie_tangle.Terminal.Valid.Defs.{IsSound, screen-IsSound, IsDrawn, screen-IsDrawn, settle-Ends}
use genie_tangle.Prelude.{
  true, Ends, Outcome, List, Ends-bind, refl, Bool, false, ℕ, arith, ◌∷◌, [], ◌>>=◌, ok, fault,
  Ends-map, Ends-both, push, ◌≡◌,
}

-- The property holds unless the run faults.
abbrev pub Unless {ℓ} : {A : Type ℓ} → (A → Type 0) → Outcome A → Type 0
Unless P (ok a) = P a
Unless P (fault e) = Unit {0}

-- The conditions at every character of a text, in the state that the code reaches there.
abbrev pub TextFits : Bool → List ℕ → Terminal → Type 0
TextFits skip [] t = Unit {0}
TextFits true (ch ∷ chs) t = TextFits false chs t
TextFits false (ch ∷ chs) t =
    CharFits t.parser.state ch t × Unless (λ r. TextFits (r.1) chs (r.0)) (step ch t)

abbrev Always : Type 0
Always = Unit {0}

feed-IsDrawn :
    (skip : Bool) (text : List ℕ) {height : ℕ} (t : Terminal)
    → IsDrawn Always height t
    → TextFits skip text t
    → Ends (DrawnResult Always height) (feed skip text t)
unfolding feed
feed-IsDrawn skip [] t v h = v
feed-IsDrawn true (ch ∷ chs) t v h = feed-IsDrawn false chs t v h
feed-IsDrawn false (ch ∷ chs) {height} t v h =
    after_step (step ch t) (λ r. feed-IsDrawn (r.1) chs (r.0))
      (step-IsDrawn Always height ch t v h.0) h.1
  where
    after_step :
        (m : Outcome (Terminal × Bool))
        → ((r : Terminal × Bool)
            → DrawnResult Always height r
            → TextFits (r.1) chs (r.0)
            → Ends (DrawnResult Always height) (feed (r.1) chs (r.0)))
        → Ends (DrawnResult Always height) m
        → Unless (λ r. TextFits (r.1) chs (r.0)) m
        → Ends (DrawnResult Always height) (m >>= λ r. feed (r.1) chs (r.0))
    after_step (ok r) ih w k = ih r w k
    after_step (fault e) ih w k = absurd w

start_write-IsDrawn :
    (t : Terminal) → IsSound t → IsDrawn Always t.scr.rows (on_screen start_write t)
unfolding start_write max_range
start_write-IsDrawn t v =
    let k : Kept t.scr (start_write t.scr) = ground (arith, v.screen) in
    record {
      sound = screen-IsSound v k refl refl;
      range = λ r. ground (arith, v.screen.row_in);
      same_height = k.same_rows;
    }

end_write-IsDrawn :
    {height : ℕ} (t : Terminal) → IsDrawn Always height t → IsDrawn Always height (end_write t)
unfolding end_write
end_write-IsDrawn {height} t v =
    let w : IsDrawn Always height (on_screen (λ s. update_range s.y s) t) =
      screen-IsDrawn v (update_range-Kept t.scr.y v.sound.screen.row_in (Kept-refl v.sound.screen))
        refl refl in
    refresh-IsDrawn _ _ w (w.range tt).1

write-IsDrawn :
    (text : List ℕ) (t : Terminal)
    → IsSound t
    → TextFits false text (on_screen start_write t)
    → Ends (IsDrawn Always t.scr.rows) (write text t)
unfolding write
write-IsDrawn text t v h =
    let w = start_write-IsDrawn t v in
    Ends-bind (DrawnResult Always t.scr.rows) (IsDrawn Always t.scr.rows)
      (feed false text (on_screen start_write t)) _
      (feed-IsDrawn false text (on_screen start_write t) w h)
      (λ r k.
        let w' = end_write-IsDrawn (r.0) k in settle-Ends (IsDrawn Always t.scr.rows) _ w'.sound w')

-- `write` leaves the number of rows.
pub write-rows :
    (text : List ℕ) (t : Terminal)
    → IsSound t
    → TextFits false text (on_screen start_write t)
    → Ends (λ u. u.scr.rows ≡ t.scr.rows) (write text t)
write-rows text t v h =
    Ends-map (IsDrawn Always t.scr.rows) (λ u. u.scr.rows ≡ t.scr.rows) (write text t)
      (write-IsDrawn text t v h) (λ u k. k.same_height)

-- The last call is the repaint of the rows that were changed.
abbrev pub Repaints : Terminal → Type 0
Repaints u =
    (es : List Effect) × (u.io.effects ≡ push es (repaint u.scr.refresh_start u.scr.refresh_end))

end_write-Repaints : (t : Terminal) → Repaints (end_write t)
unfolding end_write refresh
end_write-Repaints t = (t.io.effects, refl)

-- `write` of a text that fits, from a sound terminal, throws nowhere, in its repaints neither, and its
-- last call is a repaint of rows that are rows of the screen, in their order. A text fits if, wherever
-- it ends a control sequence, a scroll region fits the screen, `HVPosition` has two parameters, and no
-- character is repeated right of the right edge.
pub write-InRange :
    (text : List ℕ) (t : Terminal)
    → IsSound t
    → TextFits false text (on_screen start_write t)
    → Ends (λ u. Repaints u × InRange u.scr) (write text t)
write-InRange text t v h =
    Ends-both Repaints (λ u. InRange u.scr) (write text t) last
      (Ends-map (IsDrawn Always t.scr.rows) (λ u. InRange u.scr) (write text t)
        (write-IsDrawn text t v h) (λ u k. k.range tt))
  where
    last : Ends Repaints (write text t)
    last =
        unfold write in
        (Ends-bind (DrawnResult Always t.scr.rows) Repaints
          (feed false text (on_screen start_write t)) _
          (feed-IsDrawn false text (on_screen start_write t) (start_write-IsDrawn t v) h)
          (λ r k.
            settle-Ends Repaints _ (end_write-IsDrawn (r.0) k).sound (end_write-Repaints (r.0))))

-- `write` of a text from a sound terminal is without a fault, its repaints included, and ends on a
-- sound terminal, if the text fits: wherever it ends a control sequence, in the state that the code
-- has reached there, a scroll region fits the screen, `HVPosition` has two parameters, and no
-- character is repeated right of the right edge.
pub write-IsSound :
    (text : List ℕ) (t : Terminal)
    → IsSound t
    → TextFits false text (on_screen start_write t)
    → Ends IsSound (write text t)
write-IsSound text t v h =
    Ends-map (IsDrawn Always t.scr.rows) IsSound (write text t) (write-IsDrawn text t v h)
      (λ u k. k.sound)

-- The terminal that the constructor makes is sound, whatever size it is given, 0 included.
pub new_terminal-IsSound : (cols rows : ℕ) → IsSound (new_terminal cols rows)
unfolding new_terminal initialise
new_terminal-IsSound cols rows = record {
  screen = construct-IsValid cols rows unset (ground arith);
  aside = tt;
  filled = construct-IsFull cols rows unset;
  calm = refl;
}
