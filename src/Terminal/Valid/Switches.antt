-- ===== src/Terminal/Valid/Switches.antt =====
-- The modes, the resets and the alternate screen, on a sound terminal.

use genie_tangle.Screen.Valid.Drawn.{rows_are_whole-IsFull}
use genie_tangle.Screen.Valid.Sizes.{construct-Kept}
use genie_tangle.Terminal.State.{reset, show_cursor, refresh, initialise, Saved, resize, Terminal}
use genie_tangle.Screen.{at_least_one}
use genie_tangle.Screen.Valid.{InRange}
use genie_tangle.Screen.Size as Size
use genie_tangle.Screen.Size.{resize_cols, resize_rows}
use genie_tangle.Screen.Tabs.{setup_stops}
use genie_tangle.Terminal.Valid.Defs.{
  IsSound, IsDrawn, screen-IsDrawn, SavedFits, restore_screen-IsValid, other-IsDrawn,
  refresh-IsSound,
}
use genie_tangle.Terminal.Modes.{
  alternate_screen, leave_alternate, private_mode, set_mode_all, restore_screen, question,
  PrivateMode, set_mode, save_screen, reset_mode_all, columns_132, set_private, enter_alternate,
  reset_mode, leave_132, reset_private, soft_reset, enter_with, leave_with, restore_cols,
}
use genie_tangle.Prelude.{
  refl, ◌-◌, text_eq, ◌∷◌, some, if-both, List, ◌==◌, none, [], arith, is_empty, ℕ, ◌<◌, Option,
  ◌+◌, ◌≡◌, ◌∙◌,
}
use genie_tangle.Screen.Valid.Sizes as Sizes

-- `resize`, to any size, keeps a sound terminal sound, and its repaint throws nowhere, if the saved row
-- lies on the new screen.
pub resize-IsSound :
    (x y : ℕ) (t : Terminal) → IsSound t → t.scr.saved_y < at_least_one y → IsSound (resize x y t)
unfolding resize refresh
resize-IsSound x y t v h =
    let s = Size.resize x y t.scr in
    let w = Sizes.resize-IsValid x y t.scr v.screen h in
    let u = Sizes.resize-IsFull x y t.scr v.filled in
    record {
      screen = w;
      aside = tt;
      filled = u;
      calm =
          rw
            (
              v.calm,
              rows_are_whole-IsFull (s.rows - 1 + 1 - 0) 0 s w u (λ p. omega (arith, w.row_in)),
            )
            refl;
    }

same_rows-InRange : (x : ℕ) (t : Terminal) → InRange t.scr → InRange (resize x t.scr.rows t).scr
unfolding resize refresh Size.resize resize_cols resize_rows setup_stops at_least_one
same_rows-InRange x t r = ground arith

same_rows-height :
    (x : ℕ) (t : Terminal) → t.scr.y < t.scr.rows → (resize x t.scr.rows t).scr.rows ≡ t.scr.rows
unfolding resize refresh Size.resize resize_cols resize_rows setup_stops at_least_one
same_rows-height x t h = ground arith

module _ {R : Type 0} {height : ℕ} where
  pub refresh-IsDrawn :
      (a b : ℕ) {t : Terminal}
      → IsDrawn R height t
      → b < t.scr.rows
      → IsDrawn R height (refresh a b t)
  refresh-IsDrawn a b v h = record {
    sound = refresh-IsSound a b v.sound h;
    range = unfold refresh in v.range;
    same_height = unfold refresh in v.same_height;
  }

  show_cursor-IsDrawn : {t : Terminal} → IsDrawn R height t → IsDrawn R height (show_cursor t)
  unfolding show_cursor
  show_cursor-IsDrawn {t} v =
      if-both (IsDrawn R height) t.cursor_state v
        (refresh-IsDrawn t.scr.y t.scr.y (other-IsDrawn v refl refl refl) v.sound.screen.row_in)

  initialise-IsDrawn :
      {t : Terminal} → IsDrawn R height t → IsDrawn R height (initialise t.scr.cols t.scr.rows t)
  unfolding initialise
  initialise-IsDrawn {t} v =
      let k = construct-Kept t.scr v.sound.screen in
      record {
        sound = record {
          screen = k.valid;
          aside = tt;
          filled = k.whole v.sound.filled;
          calm = v.sound.calm;
        };
        range = λ r. k.range (v.range r);
        same_height = k.same_rows ∙ v.same_height;
      }

  pub reset-IsDrawn : {t : Terminal} → IsDrawn R height t → IsDrawn R height (reset t)
  unfolding reset
  reset-IsDrawn {t} v =
      let w = initialise-IsDrawn v in refresh-IsDrawn 0 _ w (omega (arith, w.sound.screen.row_in))

  same_rows-IsDrawn :
      (x : ℕ) {t : Terminal} → IsDrawn R height t → IsDrawn R height (resize x t.scr.rows t)
  same_rows-IsDrawn x {t} v = record {
    sound =
        resize-IsSound x t.scr.rows t v.sound
          (unfold at_least_one in ground (arith, v.sound.screen.saved_in));
    range = λ r. same_rows-InRange x t (v.range r);
    same_height = same_rows-height x t v.sound.screen.row_in ∙ v.same_height;
  }

  -- What the alternate screen puts aside fits the screen that is reset.
  aside-IsDrawn :
      (t : Terminal)
      → IsDrawn R height t
      → IsDrawn R height (record (reset t) { normal = some (save_screen t.scr) })
  unfolding reset initialise refresh
  aside-IsDrawn t v =
      let k = construct-Kept t.scr v.sound.screen in
      record {
        sound = record {
          screen = k.valid;
          aside = (restore_screen-IsValid (save_screen t.scr) k v.sound.screen, v.sound.filled);
          filled = k.whole v.sound.filled;
          calm = (reset-IsDrawn v).sound.calm;
        };
        range = λ r. k.range (v.range r);
        same_height = k.same_rows ∙ v.same_height;
      }

  enter_with-IsDrawn :
      (o : Option Saved) (t : Terminal) → IsDrawn R height t → IsDrawn R height (enter_with o t)
  unfolding enter_with
  enter_with-IsDrawn none t v = show_cursor-IsDrawn (aside-IsDrawn t v)
  enter_with-IsDrawn (some n) t v = v

  leave_with-IsDrawn :
      (o : Option Saved) (t : Terminal)
      → IsDrawn R height t
      → SavedFits o t.scr
      → IsDrawn R height (leave_with o t)
  unfolding leave_with
  leave_with-IsDrawn none t v h = v
  leave_with-IsDrawn (some n) t v h =
      show_cursor-IsDrawn
        (refresh-IsDrawn 0 (t.scr.rows - 1) back (omega (arith, v.sound.screen.row_in)))
    where
      back : IsDrawn R height (record t { scr = restore_screen n t.scr; normal = none })
      back = record {
        sound = record { screen = h.0; aside = tt; filled = h.1; calm = v.sound.calm };
        range = v.range;
        same_height = v.same_height;
      }

  restore_cols-IsDrawn :
      (o : Option ℕ) (t : Terminal) → IsDrawn R height t → IsDrawn R height (restore_cols o t)
  unfolding restore_cols
  restore_cols-IsDrawn none t v = v
  restore_cols-IsDrawn (some c) t v =
      if-both (IsDrawn R height) (t.scr.cols == 132) (same_rows-IsDrawn c v) v

  set_private-IsDrawn :
      (m : PrivateMode) (p : ℕ) (t : Terminal)
      → IsDrawn R height t
      → IsDrawn R height (set_private m p t)
  unfolding set_private enter_alternate
  set_private-IsDrawn columns_132 p t v = same_rows-IsDrawn 132 (other-IsDrawn v refl refl refl)
  set_private-IsDrawn alternate_screen p t v = enter_with-IsDrawn t.normal t v
  set_private-IsDrawn _ p t v = other-IsDrawn v refl refl refl

  reset_private-IsDrawn :
      (m : PrivateMode) (t : Terminal) → IsDrawn R height t → IsDrawn R height (reset_private m t)
  unfolding reset_private leave_alternate leave_132
  reset_private-IsDrawn columns_132 t v =
      other-IsDrawn (restore_cols-IsDrawn t.saved_cols t v) refl refl refl
  reset_private-IsDrawn alternate_screen t v = leave_with-IsDrawn t.normal t v v.sound.aside
  reset_private-IsDrawn _ t v = other-IsDrawn v refl refl refl

  set_mode-IsDrawn : (p : ℕ) (t : Terminal) → IsDrawn R height t → IsDrawn R height (set_mode p t)
  unfolding set_mode
  set_mode-IsDrawn p t v =
      if-both (IsDrawn R height) (is_empty t.parser.prefix)
        (if-both (IsDrawn R height) (p == 4) (other-IsDrawn v refl refl refl) v)
        (if-both (IsDrawn R height) (text_eq t.parser.prefix question)
          (set_private-IsDrawn (private_mode p) p t v) v)

  reset_mode-IsDrawn :
      (p : ℕ) (t : Terminal) → IsDrawn R height t → IsDrawn R height (reset_mode p t)
  unfolding reset_mode
  reset_mode-IsDrawn p t v =
      if-both (IsDrawn R height) (is_empty t.parser.prefix)
        (if-both (IsDrawn R height) (p == 4) (other-IsDrawn v refl refl refl) v)
        (if-both (IsDrawn R height) (text_eq t.parser.prefix question)
          (reset_private-IsDrawn (private_mode p) t v) v)

  pub set_mode_all-IsDrawn :
      (ps : List ℕ) (t : Terminal) → IsDrawn R height t → IsDrawn R height (set_mode_all ps t)
  unfolding set_mode_all
  set_mode_all-IsDrawn [] t v = v
  set_mode_all-IsDrawn (p ∷ ps) t v = set_mode_all-IsDrawn ps _ (set_mode-IsDrawn p t v)

  pub reset_mode_all-IsDrawn :
      (ps : List ℕ) (t : Terminal) → IsDrawn R height t → IsDrawn R height (reset_mode_all ps t)
  unfolding reset_mode_all
  reset_mode_all-IsDrawn [] t v = v
  reset_mode_all-IsDrawn (p ∷ ps) t v = reset_mode_all-IsDrawn ps _ (reset_mode-IsDrawn p t v)

  pub soft_reset-IsDrawn : (t : Terminal) → IsDrawn R height t → IsDrawn R height (soft_reset t)
  unfolding soft_reset
  soft_reset-IsDrawn t v = screen-IsDrawn v (ground (arith, v.sound.screen)) refl refl
