-- ===== src/Screen/Cells/Shifted.antt =====
-- `insertChars` and `deleteChars` on the cells of the cursor's row.
use genie_tangle.Screen.Cells.Places.{get_or-push, get_or-insert_at, get_or-erase_at, get_or-pop}
use genie_tangle.Screen.Cells.Defs.{row_at, cell_at, IsWide-row, RowWritten, with_line-RowWritten}
use genie_tangle.Screen.Valid.Lasting.{delete_cells-Lasts, insert_cells-Lasts}
use genie_tangle.Screen.Buffer.{Row, hole, Cell, with_line, blank, Screen, at_least_one, first}
use genie_tangle.Screen.Chars.{delete_cells, insert_cells, insert_chars, delete_chars}
use genie_tangle.Screen.Valid.{IsWide, IsValid}
use genie_tangle.Prelude.{
  ltb, ◌∙◌, insert_at, erase_at, length, suc, arith, if◌then◌else◌, [], ℕ, ◌==◌, if◌then◌else◌, pop,
  get_or, ◌∷◌, ◌-◌, if◌then◌else◌, ◌+◌, ◌≡◌, ◌<◌, zero, push, List, false, true, length-insert_at,
  length-erase_at, inl, Bool-cases, length-pop, Ends-map, Ends, inr, length-append,
}

-- `n` blanks stand from `x` on, and what stood there stands `n` places further right.
abbrev pub shifted_right : ℕ → ℕ → Cell → Row → ℕ → Cell
shifted_right n x ch line k =
    if ltb k x then get_or line k hole else if ltb k (x + n) then ch else get_or line (k - n) hole

-- What stood `n` places further right stands from `x` on, and blanks behind the end.
abbrev pub shifted_left : ℕ → ℕ → ℕ → Cell → Row → ℕ → Cell
shifted_left cols n x ch line k =
    if ltb k x
    then get_or line k hole
    else if ltb (k + n) cols
    then get_or line (k + n) hole
    else ch

one_in :
    (line : Row) (j cols k : ℕ) (ch : Cell)
    → IsWide cols line
    → j < cols
    → k < cols
    → get_or (pop (insert_at line j ch)) k hole ≡ shifted_right 1 j ch line k
one_in line j cols k ch w h h' =
    get_or-pop (insert_at line j ch) k (omega (arith, length-insert_at line j ch, w, h'))
    ∙ get_or-insert_at line j k ch (omega (arith, w, h))
    ∙ ground arith

insert_cells-shifted :
    (n j cols k : ℕ) (ch : Cell) (line : Row)
    → IsWide cols line
    → k < cols
    → get_or (insert_cells n j cols ch line) k hole ≡ shifted_right n j ch line k
unfolding insert_cells
insert_cells-shifted zero j cols k ch line w h = ground arith
insert_cells-shifted (suc n) j cols k ch line w h = elim (Bool-cases (ltb j cols)) [
  | inl e ↦
      let line' = pop (insert_at line j ch) in
      let j_in : j < cols = ground arith in
      let wide : IsWide cols line' =
        omega (arith, length-pop (insert_at line j ch), length-insert_at line j ch, w) in
      rw e (
        insert_cells-shifted n (j + 1) cols k ch line' wide h
        ∙ rw
            (
              one_in line j cols k ch w j_in h,
              one_in line j cols (k - n) ch w j_in (omega (arith, h)),
            )
            (ground arith))
  | inr e ↦ rw e (insert_cells-shifted n (j + 1) cols k ch line w h ∙ ground arith)
]

one_out :
    (line : Row) (x cols k : ℕ) (ch : Cell)
    → length line ≡ cols
    → x < cols
    → k < cols
    → get_or (push (erase_at line x) ch) k hole ≡ shifted_left cols 1 x ch line k
one_out line x cols k ch w h h' =
    let n = length-erase_at line x (omega (arith, w, h)) in
    get_or-push (erase_at line x) k ch ∙ rw (get_or-erase_at line x k) (ground (arith, n, w))

delete_cells-shifted :
    (n x cols k : ℕ) (ch : Cell) (line : Row)
    → length line ≡ cols
    → x < cols
    → k < cols
    → get_or (delete_cells n x ch line) k hole ≡ shifted_left cols n x ch line k
unfolding delete_cells
delete_cells-shifted zero x cols k ch line w i h = ground arith
delete_cells-shifted (suc n) x cols k ch line w i h =
    let line' = push (erase_at line x) ch in
    let size : length line' ≡ cols = omega (
      arith,
      length-append (erase_at line x) (ch ∷ []),
      length-erase_at line x (omega (arith, w, i)),
      w,
    ) in
    delete_cells-shifted n x cols k ch line' size i h ∙ (elim (Bool-cases (ltb (k + n) cols)) [
      | inl e ↦
          rw (one_out line x cols k ch w i h, one_out line x cols (k + n) ch w i (ground arith))
            (ground arith)
      | inr e ↦ rw (e, one_out line x cols k ch w i h) (ground arith)
    ])

-- In the row of the cursor the cells of the screen are those of `f`, and the other rows are as they
-- were.
abbrev pub RowCells : Screen → (ℕ → Cell) → Screen → Type 0
RowCells s f t =
    ((k : ℕ) → k < s.cols → cell_at t s.y k ≡ f k)
    × ((j : ℕ) → (j == s.y) ≡ false → row_at t j ≡ row_at s j)

-- `insertChars` on a valid screen, with the cursor left of the right edge, is without a fault: in
-- the row of the cursor, `p` blanks in the current attributes, one for 0, stand from the cursor
-- on, what stood there is moved right by as many columns, up to the right edge, and the cells left
-- of the cursor stay; the other rows stay.
pub insert_chars-shifted :
    (ps : List ℕ) (s : Screen)
    → IsValid s
    → s.x < s.cols
    → Ends
        (RowCells s (shifted_right (at_least_one (first ps)) s.x (blank s) (row_at s s.y)))
        (insert_chars ps s)
unfolding insert_chars
insert_chars-shifted ps s v h =
    let e : ltb s.x s.cols ≡ true = ground arith in
    let n = at_least_one (first ps) in
    let f = insert_cells n s.x s.cols (blank s) in
    rw e (
      Ends-map (RowWritten s s.y (f (row_at s s.y))) _ (with_line (s.y + s.ybase) f s)
        (with_line-RowWritten (s.y + s.ybase) s.y f s v v.row_in (omega arith)
          (λ line. insert_cells-Lasts s.cols n s.x s.cols (blank s) line tt))
        (λ t r. (
          λ k p. rw r.written (
              insert_cells-shifted n s.x s.cols k (blank s) (row_at s s.y)
                (IsWide-row v s.y v.row_in) p),
          r.others,
        )))

-- `deleteChars` on a valid screen, with the cursor left of the right edge and in a row as wide as
-- the screen, is without a fault: `p` cells from the cursor on go, one for 0, the cells behind
-- them move left, and blanks in the current attributes come in at the right edge; the cells left
-- of the cursor and the other rows stay.
delete_chars-shifted :
    (ps : List ℕ) (s : Screen)
    → IsValid s
    → s.x < s.cols
    → length (row_at s s.y) ≡ s.cols
    → Ends
        (RowCells s (shifted_left s.cols (at_least_one (first ps)) s.x (blank s) (row_at s s.y)))
        (delete_chars ps s)
unfolding delete_chars
delete_chars-shifted ps s v h w =
    let n = at_least_one (first ps) in
    let f = delete_cells n s.x (blank s) in
    Ends-map (RowWritten s s.y (f (row_at s s.y))) _ (with_line (s.y + s.ybase) f s)
      (with_line-RowWritten (s.y + s.ybase) s.y f s v v.row_in (omega arith)
        (λ line. delete_cells-Lasts s.cols n s.x (blank s) line tt))
      (λ t r. (
        λ k p. rw r.written (delete_cells-shifted n s.x s.cols k (blank s) (row_at s s.y) w h p),
        r.others,
      ))
