-- ===== src/Terminal/Valid/Steps.antt =====
-- One character, in each state of the parser, on a sound terminal.

use genie_tangle.Screen.{Screen}
use genie_tangle.Screen.Tabs.{next_stop}
use genie_tangle.Terminal.Write.{step_in, and_go_on, step}
use genie_tangle.Screen.Chars.{print}
use genie_tangle.Terminal.Strings.{
  run_dcs, answer_dcs, run_osc, end_osc, run_ignore, is_end, set_title,
}
use genie_tangle.Terminal.Charset.{translate}
use genie_tangle.Screen.Valid.Moves.{tab_set-Kept, save_cursor-Kept, restore_cursor-Kept}
use genie_tangle.Screen.Valid.{Kept-refl, Kept-trans, Kept, IsValid}
use genie_tangle.Terminal.Valid.Commands.{run_command-IsDrawn, CommandFits}
use genie_tangle.Screen.Valid.Rows.{print-Kept, set_x-Kept}
use genie_tangle.Screen.Scroll.{line_feed}
use genie_tangle.Terminal.Csi.{
  Command, command_of, region, push_param, row_column, run_command, run_csi, finish, on_parser,
  is_prefix, is_postfix, up, repeat,
}
use genie_tangle.Screen.Valid.Scrolls.{line_feed-Kept, index-Kept, reverse_index-Kept}
use genie_tangle.Terminal.State.{csi, bell, Terminal, State, dcs, osc, ignore, escaped, send}
use genie_tangle.Terminal.Valid.Switches.{reset-IsDrawn}
use genie_tangle.Terminal.Valid.Defs.{
  try_screen-IsDrawn, other-IsDrawn, IsSound, IsDrawn, screen-IsDrawn,
}
use genie_tangle.Prelude.{
  true, Ends, if◌then◌else◌, if◌then◌else◌, if-both, Outcome, ◌≡◌, List, Ends-bind, refl, push,
  if◌then◌else◌, Bool, is_digit, false, ◌==◌, ℕ, ◌-◌, arith, Ends-map,
}
use genie_tangle.Terminal.Esc.{
  next_line, tabulation, run_charset, back_space, run_escape, graphic, line_index, full_reset,
  restore, run_control, reverse_line_index, carriage_return, save, set_tab, newline, Control,
  Escape, designate_g3, escape_of, control_of,
}

feed-Kept :
    (b : Bool) (s : Screen) → IsValid s → Kept s (line_feed (if b then record s { x = 0 } else s))
feed-Kept true s v = let k = set_x-Kept 0 (Kept-refl v) in Kept-trans k (line_feed-Kept _ k.valid)
feed-Kept false s v = line_feed-Kept s v

-- In the state `csi` the two handlers that check too little get what they need.
abbrev pub CharFits : State → ℕ → Terminal → Type 0
CharFits csi ch t = CommandFits (command_of ch) (push t.parser.params t.parser.current_param) t
CharFits _ ch t = Unit {0}

-- The conditions read the prefix and the screen alone.
fits_after :
    (c : Command) (ps : List ℕ) (t u : Terminal)
    → u.scr ≡ t.scr
    → u.parser.prefix ≡ t.parser.prefix
    → CommandFits c ps t
    → CommandFits c ps u
fits_after region ps t u p q h = λ e. rw p (h (rw (← q) e))
fits_after row_column ps t u p q h = h
fits_after repeat ps t u p q h = rw p h
fits_after up ps t u p q h = tt
fits_after _ ps t u p q h = tt

-- What one character leaves, with the flag for the next one.
abbrev pub SoundResult : Terminal × Bool → Type 0
SoundResult r = IsSound (r.0)

abbrev pub DrawnResult : Type 0 → ℕ → Terminal × Bool → Type 0
DrawnResult R height r = IsDrawn R height (r.0)

go_on-IsDrawn :
    (R : Type 0) (height : ℕ) (m : Outcome Terminal)
    → Ends (IsDrawn R height) m
    → Ends (DrawnResult R height) (and_go_on m)
go_on-IsDrawn R height m h = Ends-bind (IsDrawn R height) (DrawnResult R height) m _ h (λ t v. v)

module _ {R : Type 0} {height : ℕ} where
  run_control-IsDrawn :
      (c : Control) (t : Terminal) → IsDrawn R height t → Ends (IsDrawn R height) (run_control c t)
  unfolding run_control bell
  run_control-IsDrawn newline t v =
      screen-IsDrawn v (feed-Kept t.modes.convert_eol t.scr v.sound.screen) refl refl
  run_control-IsDrawn carriage_return t v =
      screen-IsDrawn v (set_x-Kept 0 (Kept-refl v.sound.screen)) refl refl
  run_control-IsDrawn back_space t v =
      screen-IsDrawn v (set_x-Kept (t.scr.x - 1) (Kept-refl v.sound.screen)) refl refl
  run_control-IsDrawn tabulation t v =
      screen-IsDrawn v (set_x-Kept (next_stop t.scr t.scr.x) (Kept-refl v.sound.screen)) refl refl
  run_control-IsDrawn (graphic ch) t v =
      let c = translate t.sets.charset ch in
      try_screen-IsDrawn (print c) v (print-Kept c t.scr v.sound.screen)
  run_control-IsDrawn _ t v = other-IsDrawn v refl refl refl

  run_charset-IsDrawn :
      (ch : ℕ) (t : Terminal) → IsDrawn R height t → IsDrawn R height (run_charset ch t).0
  unfolding run_charset
  run_charset-IsDrawn ch t v = other-IsDrawn v refl refl refl

  run_escape-IsDrawn :
      (e : Escape) (t : Terminal) → IsDrawn R height t → IsDrawn R height (run_escape e t).0
  unfolding run_escape
  run_escape-IsDrawn full_reset t v = reset-IsDrawn v
  run_escape-IsDrawn next_line t v =
      let k = set_x-Kept 0 (Kept-refl v.sound.screen) in
      screen-IsDrawn v (Kept-trans k (index-Kept _ k.valid)) refl refl
  run_escape-IsDrawn line_index t v = screen-IsDrawn v (index-Kept t.scr v.sound.screen) refl refl
  run_escape-IsDrawn reverse_line_index t v =
      screen-IsDrawn v (reverse_index-Kept t.scr v.sound.screen) refl refl
  run_escape-IsDrawn designate_g3 t v = run_charset-IsDrawn _ _ (other-IsDrawn v refl refl refl)
  run_escape-IsDrawn save t v = screen-IsDrawn v (save_cursor-Kept t.scr v.sound.screen) refl refl
  run_escape-IsDrawn restore t v =
      screen-IsDrawn v (restore_cursor-Kept t.scr v.sound.screen) refl refl
  run_escape-IsDrawn set_tab t v = screen-IsDrawn v (tab_set-Kept t.scr v.sound.screen) refl refl
  run_escape-IsDrawn _ t v = other-IsDrawn v refl refl refl

  finish-IsDrawn :
      (ch : ℕ) (t : Terminal)
      → IsDrawn R height t
      → CommandFits
          (command_of ch)
          t.parser.params
          (on_parser (λ p. record p { state = State.normal }) t)
      → Ends (IsDrawn R height) (finish ch t)
  unfolding finish
  finish-IsDrawn ch t v h =
      Ends-bind (IsDrawn R height) (IsDrawn R height)
        (run_command (command_of ch) t.parser.params _) _
        (run_command-IsDrawn (command_of ch) t.parser.params _ (other-IsDrawn v refl refl refl) h)
        (λ u w. other-IsDrawn w refl refl refl)

  run_csi-IsDrawn :
      (ch : ℕ) (t : Terminal)
      → IsDrawn R height t
      → CharFits csi ch t
      → Ends (IsDrawn R height) (run_csi ch t)
  unfolding run_csi
  run_csi-IsDrawn ch t v h = if-both P (is_prefix ch) (other-IsDrawn v refl refl refl) (
      if-both P (is_digit ch) (other-IsDrawn v refl refl refl) (
        if-both P (is_postfix ch) (other-IsDrawn v refl refl refl) (
          if-both P (ch == b';') (other-IsDrawn v refl refl refl) (
            finish-IsDrawn ch (push_param t) (other-IsDrawn v refl refl refl)
              (fits_after (command_of ch) _ t _ refl refl h)))))
    where
      P : Outcome Terminal → Type 0
      P = Ends (IsDrawn R height)

  run_osc-IsDrawn :
      (ch : ℕ) (t : Terminal) → IsDrawn R height t → DrawnResult R height (run_osc ch t)
  run_osc-IsDrawn ch t v = other-IsDrawn v scr normal threw
    where
      scr : (run_osc ch t).0.scr ≡ t.scr
      scr = unfold run_osc end_osc set_title in ground arith

      normal : (run_osc ch t).0.normal ≡ t.normal
      normal = unfold run_osc end_osc set_title in ground arith

      threw : (run_osc ch t).0.io.threw ≡ t.io.threw
      threw = unfold run_osc end_osc set_title in ground arith

  run_dcs-IsDrawn :
      (ch : ℕ) (t : Terminal) → IsDrawn R height t → DrawnResult R height (run_dcs ch t)
  run_dcs-IsDrawn ch t v = other-IsDrawn v scr normal threw
    where
      scr : (run_dcs ch t).0.scr ≡ t.scr
      scr = unfold run_dcs answer_dcs send in ground arith

      normal : (run_dcs ch t).0.normal ≡ t.normal
      normal = unfold run_dcs answer_dcs send in ground arith

      threw : (run_dcs ch t).0.io.threw ≡ t.io.threw
      threw = unfold run_dcs answer_dcs send in ground arith

  run_ignore-IsDrawn :
      (ch : ℕ) (t : Terminal) → IsDrawn R height t → DrawnResult R height (run_ignore ch t)
  unfolding run_ignore
  run_ignore-IsDrawn ch t v =
      if-both (DrawnResult R height) (is_end ch) (other-IsDrawn v refl refl refl) v

  step_in-IsDrawn :
      (st : State) (ch : ℕ) (t : Terminal)
      → IsDrawn R height t
      → CharFits st ch t
      → Ends (DrawnResult R height) (step_in st ch t)
  unfolding step_in
  step_in-IsDrawn State.normal ch t v h =
      go_on-IsDrawn R height _ (run_control-IsDrawn (control_of ch) t v)
  step_in-IsDrawn escaped ch t v h = run_escape-IsDrawn (escape_of ch) t v
  step_in-IsDrawn State.charset ch t v h = run_charset-IsDrawn ch t v
  step_in-IsDrawn osc ch t v h = run_osc-IsDrawn ch t v
  step_in-IsDrawn csi ch t v h = go_on-IsDrawn R height _ (run_csi-IsDrawn ch t v h)
  step_in-IsDrawn dcs ch t v h = run_dcs-IsDrawn ch t v
  step_in-IsDrawn ignore ch t v h = run_ignore-IsDrawn ch t v

pub step-IsDrawn :
    (R : Type 0) (height ch : ℕ) (t : Terminal)
    → IsDrawn R height t
    → CharFits t.parser.state ch t
    → Ends (DrawnResult R height) (step ch t)
unfolding step
step-IsDrawn R height ch t v h = step_in-IsDrawn t.parser.state ch t v h

-- One character, in any state of the parser, is processed without a fault and leaves the terminal
-- sound, if it was; also the repaints that it calls throw nowhere. Where the character ends a control
-- sequence, this is under the conditions of the three handlers that check too little: the scroll
-- region fits the screen, `HVPosition` has two parameters, and no character is repeated right of
-- the right edge.
pub step-IsSound :
    (ch : ℕ) (t : Terminal)
    → IsSound t
    → CharFits t.parser.state ch t
    → Ends SoundResult (step ch t)
step-IsSound ch t v h =
    Ends-map (DrawnResult ⊥ t.scr.rows) SoundResult (step ch t)
      (step-IsDrawn ⊥ t.scr.rows ch t
        (record { sound = v; range = λ e. absurd e; same_height = refl }) h)
      (λ r k. k.sound)
