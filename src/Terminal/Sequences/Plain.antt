-- ===== src/Terminal/Sequences/Plain.antt =====
-- Plain text on the screen.

use genie_tangle.Screen.Faults.{no_wrap}
use genie_tangle.Screen.Cells.Printed.{CellWritten, print-cells}
use genie_tangle.Terminal.State.{Terminal, ascii, State, try_screen, CharacterSet}
use genie_tangle.Screen.{Screen, cell}
use genie_tangle.Screen.Cells.{cell_at}
use genie_tangle.Terminal.Charset.{translate}
use genie_tangle.Terminal.Write.{step, step_in, feed, and_go_on}
use genie_tangle.Screen.Valid.Rows.{print-Kept}
use genie_tangle.Screen.Chars.{print}
use genie_tangle.Screen.Valid.{Kept, IsValid}
use genie_tangle.Terminal.Esc.{control_of, graphic, run_control, Control}
use genie_tangle.Prelude.{
  if◌then◌else◌, fault, if◌then◌else◌, ◌+◌, [], leb, Ends-map, Ends-bind, ◌∷◌, ℕ, if◌then◌else◌,
  arith, ok, ◌≡◌, List, ◌-◌, ◌&&◌, ltb, Ends, ◌≤◌, Outcome, length, false, ◌∙◌, ◌==◌, refl, get_or,
  ◌>>=◌, All, inr, suc, inl, Bool-cases, subst, ap, Bool,
}

-- The text stands from the cursor on in the attributes of the cursor, every other cell is as it was,
-- and the cursor stands behind the text.
abbrev pub TextWritten : Screen → List ℕ → Screen → Type 0
TextWritten s text u =
    (u.x ≡ s.x + length text)
    × (u.y ≡ s.y)
    × ((j k : ℕ)
        → cell_at u j k ≡ (
            if j == s.y && leb s.x k && ltb k (s.x + length text)
            then cell s.cur_attr (get_or text (k - s.x) 0)
            else cell_at s j k))

-- A character that is printed.
abbrev pub IsGraphic : ℕ → Type 0
IsGraphic ch = 0x20 ≤ ch

control_of-graphic : (ch : ℕ) → IsGraphic ch → control_of ch ≡ graphic ch
unfolding control_of
control_of-graphic ch h = ground arith

feed-graphic :
    (ch : ℕ) (chs : List ℕ) (t : Terminal)
    → t.parser.state ≡ State.normal
    → t.sets.charset ≡ ascii
    → IsGraphic ch
    → feed false (ch ∷ chs) t ≡ (print ch t.scr >>= λ s. feed false chs (record t { scr = s }))
unfolding feed step step_in run_control translate
feed-graphic ch chs t e e' h =
    ap (λ (m : Outcome (Terminal × Bool)). m >>= λ r. feed (r.1) chs (r.0)) at_step
    ∙ go (print ch t.scr)
  where
    go :
        (m : Outcome Screen)
        → (and_go_on (m >>= λ s. ok (record t { scr = s })) >>= λ r. feed (r.1) chs (r.0))
          ≡ (m >>= λ s. feed false chs (record t { scr = s }))
    go (ok s) = refl
    go (fault f) = refl

    at_step : step ch t ≡ and_go_on (print ch t.scr >>= λ s. ok (record t { scr = s }))
    at_step =
        ap (λ (st : State). step_in st ch t) e
        ∙ ap (λ (c : Control). and_go_on (run_control c t)) (control_of-graphic ch h)
        ∙ ap (λ (cs : CharacterSet). and_go_on (try_screen (print (translate cs ch)) t)) e'

Ends-both :
    {A : Type 0} (P Q : A → Type 0) (m : Outcome A) → Ends P m → Ends Q m → Ends (λ a. P a × Q a) m
Ends-both P Q (ok a) h k = (h, k)
Ends-both P Q (fault e) h k = absurd h

-- One character more in front.
TextWritten-cons :
    (ch : ℕ) (chs : List ℕ) (s t u : Screen)
    → CellWritten s (cell s.cur_attr ch) t
    → TextWritten t chs u
    → TextWritten s (ch ∷ chs) u
TextWritten-cons ch chs s t u (x, y, attr, cells) (x', y', cells') =
    (x' ∙ omega (arith, x), y' ∙ y, λ j k. cells' j k ∙ rw (x, y, attr, cells j k) (joined j k))
  where
    joined :
        (j k : ℕ)
        → (if j == s.y && leb (s.x + 1) k && ltb k (s.x + 1 + length chs)
            then cell s.cur_attr (get_or chs (k - (s.x + 1)) 0)
            else if j == s.y && k == s.x
            then cell s.cur_attr ch
            else cell_at s j k)
          ≡ (if j == s.y && leb s.x k && ltb k (s.x + suc (length chs))
              then cell s.cur_attr (get_or (ch ∷ chs) (k - s.x) 0)
              else cell_at s j k)
    joined j k = elim (Bool-cases (k == s.x)) [
      | inl e ↦ let m : k - s.x ≡ 0 = ground arith in rw m (ground arith)
      | inr e ↦ elim (Bool-cases (leb s.x k)) [
        | inl l ↦ let m : k - s.x ≡ suc (k - (s.x + 1)) = ground arith in rw m (ground arith)
        | inr l ↦ ground arith
      ]
    ]

-- On a valid screen, in the state `normal` and with no character set, a text of characters from
-- 0x20 on that ends within the row of the cursor is read without a fault and appears there as it
-- is, in the current attributes; every other cell is as it was, and the cursor stands behind the
-- text.
pub feed-plain :
    (text : List ℕ) (t : Terminal)
    → IsValid t.scr
    → t.parser.state ≡ State.normal
    → t.sets.charset ≡ ascii
    → All IsGraphic text
    → t.scr.x + length text ≤ t.scr.cols
    → Ends (λ r. TextWritten t.scr text (r.0).scr) (feed false text t)
unfolding feed
feed-plain [] t v e e' h k = (omega arith, refl, λ j i. ground arith)
feed-plain (ch ∷ chs) t v e e' (g, gs) k =
    let once =
      Ends-both (Kept t.scr) (CellWritten t.scr (cell t.scr.cur_attr ch)) (print ch t.scr)
        (print-Kept ch t.scr v)
        (subst (λ (s : Screen). Ends (CellWritten s (cell s.cur_attr ch)) (print ch t.scr))
          (no_wrap t.scr (omega (arith, k))) (print-cells ch t.scr v)) in
    rw (feed-graphic ch chs t e e' g) (
      Ends-bind (λ s. Kept t.scr s × CellWritten t.scr (cell t.scr.cur_attr ch) s) _
        (print ch t.scr) (λ s. feed false chs (record t { scr = s })) once
        (λ s w.
          Ends-map (λ r. TextWritten s chs (r.0).scr) _ _
            (feed-plain chs (record t { scr = s }) (w.0).valid e e' gs
              (omega (arith, (w.1).0, (w.0).same_cols, k)))
            (λ r p. TextWritten-cons ch chs t.scr s (r.0).scr w.1 p)))
