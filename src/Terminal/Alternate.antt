-- ===== src/Terminal/Alternate.antt =====
-- The alternate screen: `setMode` and `resetMode` for 47, 1047 and 1049.
use genie_tangle.Screen.{Screen}
use genie_tangle.Terminal.Modes.{
  save_screen, enter_with, leave_alternate, restore_screen, enter_alternate, leave_with,
}
use genie_tangle.Terminal.State.{Terminal, refresh, show_cursor, initialise, Saved, reset}
use genie_tangle.Prelude.{◌≡◌, arith, inl, ◌∙◌, inr, Option-cases, refl, some, ap, none}

entered : (t : Terminal) → t.normal ≡ none → (enter_alternate t).normal ≡ some (save_screen t.scr)
unfolding enter_alternate enter_with show_cursor refresh reset initialise
entered t e = rw e refl

left :
    (n : Saved) (u : Terminal)
    → u.normal ≡ some n
    → ((leave_alternate u).scr ≡ restore_screen n u.scr) × ((leave_alternate u).normal ≡ none)
unfolding leave_alternate leave_with show_cursor refresh
left n u e = rw e (ground arith)

-- What the alternate screen gives back.
pub record GivenBack (s : Screen) (u : Terminal) : Type 0 where
  pub same_lines : u.scr.lines ≡ s.lines
  pub same_base : u.scr.ybase ≡ s.ybase
  pub same_view : u.scr.ydisp ≡ s.ydisp
  pub same_x : u.scr.x ≡ s.x
  pub same_y : u.scr.y ≡ s.y
  pub same_top : u.scr.scroll_top ≡ s.scroll_top
  pub same_bottom : u.scr.scroll_bottom ≡ s.scroll_bottom
  pub same_tabs : u.scr.tabs ≡ s.tabs
  pub none_aside : u.normal ≡ none

given :
    (s : Screen) (u : Terminal) (o : Screen)
    → u.scr ≡ restore_screen (save_screen s) o
    → u.normal ≡ none
    → GivenBack s u
given s u o e n = record {
  same_lines = ap (λ (r : Screen). r.lines) e;
  same_base = ap (λ (r : Screen). r.ybase) e;
  same_view = ap (λ (r : Screen). r.ydisp) e;
  same_x = ap (λ (r : Screen). r.x) e;
  same_y = ap (λ (r : Screen). r.y) e;
  same_top = ap (λ (r : Screen). r.scroll_top) e;
  same_bottom = ap (λ (r : Screen). r.scroll_bottom) e;
  same_tabs = ap (λ (r : Screen). r.tabs) e;
  none_aside = n;
}

-- `t` shows its normal screen and enters the alternate one; `u` is any later state in which what was
-- put aside then is still put aside. When `u` leaves the alternate screen, the lines, the scrollback's
-- height and view, the cursor, the scroll region and the tab stops are those of `t` again, and
-- nothing is put aside any more.
pub leave_alternate-enter :
    (t u : Terminal)
    → t.normal ≡ none
    → u.normal ≡ (enter_alternate t).normal
    → GivenBack t.scr (leave_alternate u)
leave_alternate-enter t u e h =
    let (a, b) = left (save_screen t.scr) u (h ∙ entered t e) in
    given t.scr (leave_alternate u) u.scr a b

entered_once : (n : Saved) (u : Terminal) → u.normal ≡ some n → enter_alternate u ≡ u
unfolding enter_alternate enter_with
entered_once n u e = rw e refl

-- Entering the alternate screen a second time does nothing: what the first entry put aside stays.
enter_alternate-twice : (t : Terminal) → enter_alternate (enter_alternate t) ≡ enter_alternate t
enter_alternate-twice t = elim (Option-cases t.normal) [
  | inl e ↦ entered_once (save_screen t.scr) (enter_alternate t) (entered t e)
  | inr (n, e) ↦ ap enter_alternate (entered_once n t e)
]
