-- ===== src/Terminal/Sequences/Positions.antt =====
-- CUP: the position that a sequence names.
use genie_tangle.Screen.{Screen}
use genie_tangle.Terminal.Sequences.Params.{feed-control_sequence, params_text}
use genie_tangle.Terminal.Write.{feed}
use genie_tangle.Terminal.Csi.{run_command, command_of}
use genie_tangle.Terminal.State.{State, Terminal}
use genie_tangle.Prelude.{refl, List, [], ◌<◌, ◌++◌, ok, ◌≡◌, ◌∷◌, false, ◌+◌, ℕ, arith, ◌-◌}
use genie_tangle.Screen.Cursor.{cursor_pos, below}

-- The text `ESC [ y ; x H`, where the row and the column count from 1.
abbrev pub address : ℕ → ℕ → List ℕ
address y x = 27 ∷ b'[' ∷ (params_text (y + 1) ((x + 1) ∷ []) ++ (b'H' ∷ []))

moved :
    (y x : ℕ) (s : Screen)
    → y < s.rows
    → x < s.cols
    → cursor_pos ((y + 1) ∷ (x + 1) ∷ []) s ≡ record s { x = x; y = y }
unfolding cursor_pos
moved y x s h k =
    let a : below s.rows (y + 1 - 1) ≡ y = ground arith in
    let b : below s.cols (x + 1 - 1) ≡ x = ground arith in rw (a, b) refl

-- In the state `normal`, the text that names a row and a column of the screen, in decimal and from
-- 1, is read without a fault: the cursor stands there, the rest of the screen is as it was, and the
-- parser is in `normal` again with no prefix.
pub feed-address :
    (y x : ℕ) (t : Terminal)
    → t.parser.state ≡ State.normal
    → y < t.scr.rows
    → x < t.scr.cols
    → (u : Terminal) × (feed false (address y x) t ≡ ok (u, false))
      × (u.scr ≡ record (t.scr) { x = x; y = y })
      × (u.parser.state ≡ State.normal)
      × (u.parser.prefix ≡ [])
unfolding run_command command_of
feed-address y x t e h k =
    (_, feed-control_sequence (y + 1) ((x + 1) ∷ []) b'H' t e refl, moved y x t.scr h k, refl, refl)
