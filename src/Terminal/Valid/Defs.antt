-- ===== src/Terminal/Valid/Defs.antt =====
-- The invariant of the terminal: the screen is valid and without gaps, and so would be the screen
-- that the alternate one put aside; and no repaint has thrown.
use genie_tangle.Screen.Valid.Drawn.{rows_are_whole-IsFull}
use genie_tangle.Terminal.Modes.{restore_screen}
use genie_tangle.Screen.Valid.{IsValid, Kept, InRange, IsFull}
use genie_tangle.Screen.{Screen}
use genie_tangle.Prelude.{
  arith, refl, some, none, Option, ◌≡◌, Ends-bind, Ends, Outcome, ◌∙◌, false, ◌-◌, ◌+◌, ◌<◌, ℕ, ok,
}
use genie_tangle.Terminal.State.{Terminal, try_screen, on_screen, Saved, refresh, settle}

abbrev pub SavedFits : Option Saved → Screen → Type 0
SavedFits none s = Unit {0}
SavedFits (some n) s = IsValid (restore_screen n s) × IsFull (restore_screen n s)

pub record IsSound (t : Terminal) : Type 0 where
  pub screen : IsValid t.scr
  pub aside : SavedFits t.normal t.scr
  pub filled : IsFull t.scr
  pub calm : t.io.threw ≡ false

-- What was put aside fits every valid screen of the same size.
pub restore_screen-IsValid :
    (n : Saved) {s t : Screen}
    → Kept s t
    → IsValid (restore_screen n s)
    → IsValid (restore_screen n t)
restore_screen-IsValid n k v = record {
  cols_pos = k.valid.cols_pos;
  full = omega (arith, v.full, k.same_rows);
  wide = rw k.same_cols v.wide;
  row_in = omega (arith, v.row_in, k.same_rows);
  region_order = v.region_order;
  region_in = omega (arith, v.region_in, k.same_rows);
  base_in = v.base_in;
  disp_in = v.disp_in;
  saved_in = k.valid.saved_in;
}

SavedFits-Kept : (o : Option Saved) {s t : Screen} → Kept s t → SavedFits o s → SavedFits o t
SavedFits-Kept none k h = tt
SavedFits-Kept (some n) k h = (restore_screen-IsValid n k h.0, h.1)

-- A change of the screen that keeps it, with any change of what the invariant does not read.
pub screen-IsSound :
    {t u : Terminal}
    → IsSound t
    → Kept t.scr u.scr
    → u.normal ≡ t.normal
    → u.io.threw ≡ t.io.threw
    → IsSound u
screen-IsSound {t} {u} v k e c = record {
  screen = k.valid;
  aside = rw e (SavedFits-Kept t.normal k v.aside);
  filled = k.whole v.filled;
  calm = c ∙ v.calm;
}

-- A change of what the invariant does not read.
pub other-IsSound :
    {t u : Terminal}
    → IsSound t
    → u.scr ≡ t.scr
    → u.normal ≡ t.normal
    → u.io.threw ≡ t.io.threw
    → IsSound u
other-IsSound v p q c = record {
  screen = rw p v.screen;
  aside = rw (p, q) v.aside;
  filled = rw p v.filled;
  calm = c ∙ v.calm;
}

-- A repaint of rows of the screen throws nowhere.
pub refresh-IsSound :
    (a b : ℕ) {t : Terminal} → IsSound t → b < t.scr.rows → IsSound (refresh a b t)
unfolding refresh
refresh-IsSound a b {t} v h = record {
  screen = v.screen;
  aside = v.aside;
  filled = v.filled;
  calm =
      rw (v.calm, rows_are_whole-IsFull (b + 1 - a) a t.scr v.screen v.filled (λ p. omega arith))
        refl;
}

-- A sound terminal with so many rows, and with rows to repaint on the screen where `R` holds.
pub record IsDrawn (R : Type 0) (height : ℕ) (t : Terminal) : Type 0 where
  pub sound : IsSound t
  pub range : R → InRange t.scr
  pub same_height : t.scr.rows ≡ height

module _ {R : Type 0} {height : ℕ} where
  pub screen-IsDrawn :
      {t u : Terminal}
      → IsDrawn R height t
      → Kept t.scr u.scr
      → u.normal ≡ t.normal
      → u.io.threw ≡ t.io.threw
      → IsDrawn R height u
  screen-IsDrawn v k e c = record {
    sound = screen-IsSound v.sound k e c;
    range = λ r. k.range (v.range r);
    same_height = k.same_rows ∙ v.same_height;
  }

  pub other-IsDrawn :
      {t u : Terminal}
      → IsDrawn R height t
      → u.scr ≡ t.scr
      → u.normal ≡ t.normal
      → u.io.threw ≡ t.io.threw
      → IsDrawn R height u
  other-IsDrawn v p q c = record {
    sound = other-IsSound v.sound p q c;
    range = λ r. rw p (v.range r);
    same_height = rw p v.same_height;
  }

  pub on_screen-IsDrawn :
      (f : Screen → Screen) {t : Terminal}
      → IsDrawn R height t
      → Kept t.scr (f t.scr)
      → IsDrawn R height (on_screen f t)
  on_screen-IsDrawn f v k = screen-IsDrawn v k refl refl

  pub try_screen-IsDrawn :
      (f : Screen → Outcome Screen) {t : Terminal}
      → IsDrawn R height t
      → Ends (Kept t.scr) (f t.scr)
      → Ends (IsDrawn R height) (try_screen f t)
  try_screen-IsDrawn f {t} v h =
      Ends-bind (Kept t.scr) (IsDrawn R height) (f t.scr) _ h (λ s k. screen-IsDrawn v k refl refl)

-- A run in which no repaint threw settles to its end.
settle-calm : (t : Terminal) → t.io.threw ≡ false → settle t ≡ ok t
unfolding settle
settle-calm t e = rw e refl

pub settle-Ends : (P : Terminal → Type 0) (t : Terminal) → IsSound t → P t → Ends P (settle t)
settle-Ends P t v h = rw (settle-calm t v.calm) h
