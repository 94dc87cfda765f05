-- ===== src/Rendering/Written.antt =====
-- What `write` changes, and the rows that it has repainted.
use genie_tangle.Screen.{Screen, hole, cell, Cell}
use genie_tangle.Prelude.{
  suc, List, Bool, Ends-map, Ends-both, false, length, ◌≡◌, ℕ, Ends, arith, ap, refl, ◌∙◌,
  All-get_elem?, some, get_elem?_total, ◌+◌, sym,
}
use genie_tangle.Rendering.Repainted.{IsFilled, IsRepainted, refresh_page-IsRepainted}
use genie_tangle.Rendering.Refresh.{Page, refresh_page}
use genie_tangle.Terminal.{Terminal, on_screen}
use genie_tangle.Terminal.Write.{write, start_write}
use genie_tangle.Terminal.Valid.{IsSound}
use genie_tangle.Terminal.Valid.Writes.{
  TextFits, write-IsSound, write-InRange, Repaints, write-rows,
}
use genie_tangle.Screen.Valid.{InRange, IsWide, IsFull, IsWhole, IsCell, IsValid}

-- The page after the repaint that the terminal asked for last.
abbrev pub PageFollows : Bool → Page → Terminal → Type 0
PageFollows bb page u =
    Repaints u
    × Ends (IsRepainted bb u.scr.refresh_start (suc u.scr.refresh_end) u page)
        (refresh_page bb u.scr.refresh_start u.scr.refresh_end u page)

read_cell : (c : Cell) → IsCell c → (datum : ℕ) × (ch : ℕ) × (c ≡ cell datum ch)
read_cell hole h = absurd h
read_cell (cell datum ch) h = (datum, ch, refl)

-- A valid buffer without gaps.
full-IsFilled : (s : Screen) → IsValid s → IsFull s → IsFilled s
full-IsFilled s v u i line e = λ k h.
    let w = All-get_elem? (IsWide s.cols) s.lines i v.wide e in
    let (c, there) = get_elem?_total line k (omega (arith, h, w)) in
    let (datum, ch, d) =
      read_cell c (All-get_elem? IsCell line k (All-get_elem? IsWhole s.lines i u e) there) in
    let same : 0 + k ≡ k = omega arith in (datum, ch, rw same (there ∙ ap some d))

-- `write` of a text that fits, from a sound terminal of which the page has the rows, ends with the call of
-- `refresh`; this call throws nowhere on the page, makes each row in its range show just the line
-- that the view has there, and leaves the others. A text fits if, wherever
-- it ends a control sequence, a scroll region fits the screen, `HVPosition` has two parameters, and
-- no character is repeated right of the right edge.
pub write-PageFollows :
    (broken_bold : Bool) (text : List ℕ) (t : Terminal) (page : Page)
    → IsSound t
    → TextFits false text (on_screen start_write t)
    → length page ≡ t.scr.rows
    → Ends (PageFollows broken_bold page) (write text t)
write-PageFollows bb text t page v h f =
    let m = write text t in
    Ends-map (λ u. IsSound u × ((Repaints u × InRange u.scr) × (length page ≡ u.scr.rows)))
      (PageFollows bb page) m
      (Ends-both IsSound (λ u. (Repaints u × InRange u.scr) × (length page ≡ u.scr.rows)) m
        (write-IsSound text t v h)
        (Ends-both (λ u. Repaints u × InRange u.scr) (λ u. length page ≡ u.scr.rows) m
          (write-InRange text t v h)
          (Ends-map (λ u. u.scr.rows ≡ t.scr.rows) (λ u. length page ≡ u.scr.rows) m
            (write-rows text t v h) (λ u e. f ∙ sym e))))
      (λ u k. (
        k.1.0.0,
        refresh_page-IsRepainted bb u.scr.refresh_start u.scr.refresh_end u page k.0.screen
            (full-IsFilled u.scr k.0.screen k.0.filled) k.1.1 k.1.0.1.0 k.1.0.1.1,
      ))
