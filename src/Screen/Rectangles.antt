-- ===== src/Screen/Rectangles.antt =====
-- `setAttrInRectangle`, `fillRectangle` and `eraseRectangle`, which no final character calls. The parameters
-- are numbers, and all of them are there.
use genie_tangle.Prelude.{
  get_elem?, some, ◌>>=◌, assign, if◌then◌else◌, ℕ, set, suc, if◌then◌else◌, fault, Outcome, ◌-◌,
  none, zero, ltb, ◌+◌, type_error, if◌then◌else◌, get_or, ok, ◌%◌,
}
use genie_tangle.Screen.Buffer.{Screen, Cell, hole, cell, Row, blank, update_range}

-- The inner loop, with the rounds that are left: what is assigned may be computed from the old cell, which
-- throws where there is none.
unfoldable pub change_cells : (Cell → Outcome Cell) → ℕ → ℕ → Row → Outcome Row
change_cells f zero i line = ok line
change_cells f (suc n) i line =
    f (get_or line i hole) >>= λ ch. change_cells f n (i + 1) (assign hole line i ch)

-- The line is not touched, and may be missing, where the inner loop makes no round.
unfoldable pub change_row : (Cell → Outcome Cell) → ℕ → ℕ → ℕ → Screen → Outcome Screen
change_row f l r t s =
    if ltb l r
    then elim (get_elem? s.lines (s.ybase + t)) [
      | none ↦ fault type_error
      | some line ↦ change_cells f (r - l) l line >>= λ line'.
          ok (record s { lines = set s.lines (s.ybase + t) line' })
    ]
    else ok s

-- The outer loop, with the rounds that are left.
unfoldable pub change_rows : (Cell → Outcome Cell) → ℕ → ℕ → ℕ → ℕ → Screen → Outcome Screen
change_rows f l r zero t s = ok s
change_rows f l r (suc n) t s = change_row f l r t s >>= change_rows f l r n (t + 1)

abbrev pub change_rectangle : (Cell → Outcome Cell) → ℕ → ℕ → ℕ → ℕ → Screen → Outcome Screen
change_rectangle f t l b r s =
    change_rows f l r (b + 1 - t) t s >>= λ u. ok (update_range b (update_range t u))

-- `[attr, line[i][1]]`
abbrev pub with_attr : ℕ → Cell → Outcome Cell
with_attr attr hole = fault type_error
with_attr attr (cell a c) = ok (cell attr c)

-- `[line[i][0], String.fromCharCode(ch)]`: one code unit of 16 bits
abbrev pub with_char : ℕ → Cell → Outcome Cell
with_char ch hole = fault type_error
with_char ch (cell a c) = ok (cell a (ch % 65536))

unfoldable pub set_attr_in_rectangle : ℕ → ℕ → ℕ → ℕ → ℕ → Screen → Outcome Screen
set_attr_in_rectangle t l b r attr s = change_rectangle (with_attr attr) t l b r s

unfoldable pub fill_rectangle : ℕ → ℕ → ℕ → ℕ → ℕ → Screen → Outcome Screen
fill_rectangle ch t l b r s = change_rectangle (with_char ch) t l b r s

unfoldable pub erase_rectangle : ℕ → ℕ → ℕ → ℕ → Screen → Outcome Screen
erase_rectangle t l b r s = change_rectangle (λ c. ok (blank s)) t l b r s
