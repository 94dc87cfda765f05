-- ===== src/Terminal/Typing.antt =====
-- What a key leaves of the terminal, and what it sends.

use genie_tangle.Screen.Valid.{IsValid, Kept}
use genie_tangle.Terminal.Valid.{IsSound, other-IsSound, screen-IsSound, refresh-IsSound}
use genie_tangle.Prelude.{
  ℕ, List, [], ◌≡◌, ◌≤◌, Bool, ◌++◌, false, ◌∷◌, append-nil, ◌∙◌, ltb, append_assoc, push, refl,
  ◌+◌, ap, sym, arith, ◌-◌, if-both,
}
use genie_tangle.Terminal.Answers.{sent, sent-push}
use genie_tangle.Screen.{Screen}
use genie_tangle.Screen.Scroll.{scroll_disp_up, scroll_disp_down}
use genie_tangle.Terminal.Keys.{
  key_down, key_action, typed, KeyAction, untyped, view_down, KeyEvent, view_up, scroll_view,
  hand_over, act,
}
use genie_tangle.Terminal.State.{
  Terminal, show_cursor, retitle, take_focus, refresh, flash, output, repaint, Effect,
}

-- What a key types.
abbrev pub typed_text : KeyAction → List ℕ
typed_text (typed text) = text
typed_text (view_up n) = []
typed_text (view_down n) = []
typed_text untyped = []

-- What may change the view and add effects, and nothing else that the invariant reads.
view-IsSound :
    (f : Screen → Screen) (t : Terminal)
    → IsSound t
    → ((s : Screen) → IsValid s → Kept s (f s))
    → IsSound (scroll_view f t)
view-IsSound f t v k =
    let w = k t.scr v.screen in
    refresh-IsSound 0 _ (screen-IsSound v w refl refl) (omega (arith, w.valid.row_in))

scroll_disp_up-Kept : (n : ℕ) (s : Screen) → IsValid s → Kept s (scroll_disp_up n s)
unfolding scroll_disp_up
scroll_disp_up-Kept n s v = ground (arith, v.disp_in)

scroll_disp_down-Kept : (n : ℕ) (s : Screen) → IsValid s → Kept s (scroll_disp_down n s)
unfolding scroll_disp_down
scroll_disp_down-Kept n s v = ground (arith, v.disp_in)

sent-repaint : (es : List Effect) (a b : ℕ) → sent (push es (repaint a b)) ≡ sent es ++ []
sent-repaint [] a b = refl
sent-repaint (output c ∷ es) a b =
    ap (λ (r : List ℕ). c ++ r) (sent-repaint es a b) ∙ sym (append_assoc c (sent es) [])
sent-repaint (repaint c d ∷ es) a b = sent-repaint es a b
sent-repaint (retitle c ∷ es) a b = sent-repaint es a b
sent-repaint (flash ∷ es) a b = sent-repaint es a b
sent-repaint (take_focus ∷ es) a b = sent-repaint es a b

-- A sound terminal with nothing changed but the view and the effects, and with `text` handed over.
abbrev pub ActedOn : Terminal → List ℕ → Terminal → Type 0
ActedOn t text u =
    IsSound u
    × (sent u.io.effects ≡ sent t.io.effects ++ text)
    × (u.io.queue ≡ t.io.queue)
    × (u.scr.lines ≡ t.scr.lines)
    × (u.scr.y ≡ t.scr.y)

shown_first : (t : Terminal) → IsSound t → ActedOn t [] (show_cursor t)
unfolding show_cursor refresh
shown_first t v =
    if-both (ActedOn t []) t.cursor_state
      (v, sym (append-nil (sent t.io.effects)), refl, refl, refl)
      (
        refresh-IsSound t.scr.y t.scr.y (other-IsSound v refl refl refl) v.screen.row_in,
        sent-repaint t.io.effects _ _,
        refl,
        refl,
        refl,
      )

acted : (a : KeyAction) (t : Terminal) → IsSound t → ActedOn t (typed_text a) (act a t)
unfolding act refresh hand_over scroll_disp_up scroll_disp_down
acted (view_up n) t v = (
  view-IsSound (scroll_disp_up n) t v (scroll_disp_up-Kept n),
  sent-repaint t.io.effects _ _,
  refl,
  refl,
  refl,
)
acted (view_down n) t v = (
  view-IsSound (scroll_disp_down n) t v (scroll_disp_down-Kept n),
  sent-repaint t.io.effects _ _,
  refl,
  refl,
  refl,
)
acted (typed text) t v =
    let (sound, none_sent, queue', lines', y') = shown_first t v in
    (
      other-IsSound sound refl refl refl,
      sent-push (show_cursor t).io.effects text
          ∙ rw (none_sent, append-nil (sent t.io.effects)) refl,
      queue',
      lines',
      y',
    )
acted untyped t v = (v, sym (append-nil (sent t.io.effects)), refl, refl, refl)

-- A key, in a sound terminal, keeps it sound, hands over just the text that it types behind what was
-- sent before, and leaves the queue, the lines and the row of the cursor as they are.
pub key_down-sent :
    (mac : Bool) (ev : KeyEvent) (t : Terminal)
    → IsSound t
    → ActedOn t (typed_text (key_action mac ev t)) (key_down mac ev t)
unfolding key_down
key_down-sent mac ev t v = acted (key_action mac ev t) t v

-- On a valid screen, scrolling the view up by a number of lines that are there, and down again by
-- as many, brings it back.
scroll_disp_down-up :
    (n : ℕ) (s : Screen) → IsValid s → n ≤ s.ydisp → scroll_disp_down n (scroll_disp_up n s) ≡ s
unfolding scroll_disp_up scroll_disp_down
scroll_disp_down-up n s v h =
    let e : ltb s.ybase (s.ydisp - n) ≡ false = ground (arith, v.disp_in) in
    let e' : ltb s.ybase (s.ydisp - n + n) ≡ false = ground (arith, v.disp_in, h) in
    let back : s.ydisp - n + n ≡ s.ydisp = omega (arith, h) in rw (e, e', back) refl
