-- ===== src/Screen/Valid/Defs.antt =====
-- The invariant of the screen between two characters.
use genie_tangle.Prelude.{
  ℕ, ◌+◌, ◌≤◌, ◌<◌, ◌≡◌, refl, Bool, List, arith, length, length-replicate, length-set, All,
  All-set, All-get_elem?, get_elem?, get_elem?_total, some, ok, ◌∙◌, Ends, set, All-replicate,
}
use genie_tangle.Screen.Buffer.{
  Row, Screen, scrollback, blank_line, update_range, with_line, Cell, cell, hole,
}

-- Every line has the columns of the screen at least.
abbrev pub IsWide : ℕ → Row → Type 0
IsWide cols line = cols ≤ length line

-- No place of a line is a gap.
abbrev pub IsCell : Cell → Type 0
IsCell hole = ⊥
IsCell (cell a c) = Unit {0}

abbrev pub IsWhole : Row → Type 0
IsWhole line = All IsCell line

-- A line takes the place of a line: it is as wide as the screen, and has no gap if the old one has none.
abbrev pub Lasts : ℕ → Row → Row → Type 0
Lasts cols line line' = IsWide cols line' × (IsWhole line → IsWhole line')

-- No line of the buffer has a gap.
abbrev pub IsFull : Screen → Type 0
IsFull s = All IsWhole s.lines

-- The buffer is the scrollback and the screen, no line is narrower than the screen, the cursor's
-- row and the scroll region lie on the screen, and so does the saved row.
pub record IsValid (s : Screen) : Type 0 where
  pub cols_pos : 0 < s.cols
  pub full : length s.lines ≡ s.ybase + s.rows
  pub wide : All (IsWide s.cols) s.lines
  pub row_in : s.y < s.rows
  pub region_order : s.scroll_top ≤ s.scroll_bottom
  pub region_in : s.scroll_bottom < s.rows
  pub base_in : s.ybase < scrollback
  pub disp_in : s.ydisp ≤ s.ybase
  pub saved_in : s.saved_y < s.rows

length-blank_line : (cur : Bool) (s : Screen) → length (blank_line cur s) ≡ s.cols
unfolding blank_line
length-blank_line cur s = length-replicate s.cols _

pub blank_line-IsWide : (cur : Bool) (s : Screen) → IsWide s.cols (blank_line cur s)
blank_line-IsWide cur s = omega (arith, length-blank_line cur s)

pub blank_line-IsWhole : (cur : Bool) (s : Screen) → IsWhole (blank_line cur s)
unfolding blank_line
blank_line-IsWhole cur s = All-replicate IsCell s.cols _ tt

update_range-IsValid : (y : ℕ) (s : Screen) → IsValid s → IsValid (update_range y s)
unfolding update_range
update_range-IsValid y s v = ground arith

-- The rows to repaint are rows of the screen.
abbrev pub InRange : Screen → Type 0
InRange s = (s.refresh_start ≤ s.refresh_end) × (s.refresh_end < s.rows)

-- A valid screen of the size of `s`, with rows to repaint on the screen if `s` has, and without gaps if `s`
-- has none.
pub record Kept (s t : Screen) : Type 0 where
  pub valid : IsValid t
  pub range : InRange s → InRange t
  pub whole : IsFull s → IsFull t
  pub same_cols : t.cols ≡ s.cols
  pub same_rows : t.rows ≡ s.rows

pub Kept-refl : {s : Screen} → IsValid s → Kept s s
Kept-refl v = record {
  valid = v;
  range = λ r. r;
  whole = λ w. w;
  same_cols = refl;
  same_rows = refl;
}

pub Kept-trans : {s t u : Screen} → Kept s t → Kept t u → Kept s u
Kept-trans h k = record {
  valid = k.valid;
  range = λ r. k.range (h.range r);
  whole = λ w. k.whole (h.whole w);
  same_cols = k.same_cols ∙ h.same_cols;
  same_rows = k.same_rows ∙ h.same_rows;
}

-- Other lines, as many and as wide.
pub lines-Kept :
    {s : Screen} (lines' : List Row)
    → IsValid s
    → length lines' ≡ s.ybase + s.rows
    → All (IsWide s.cols) lines'
    → (IsFull s → All IsWhole lines')
    → Kept s (record s { lines = lines' })
lines-Kept lines' v n w u = record {
  valid = record {
    cols_pos = v.cols_pos;
    full = n;
    wide = w;
    row_in = v.row_in;
    region_order = v.region_order;
    region_in = v.region_in;
    base_in = v.base_in;
    disp_in = v.disp_in;
    saved_in = v.saved_in;
  };
  range = λ r. r;
  whole = u;
  same_cols = refl;
  same_rows = refl;
}

pub with_line_at :
    (row : ℕ) (f : Row → Row) (s : Screen) {line : Row}
    → get_elem? s.lines row ≡ some line
    → with_line row f s ≡ ok (record s { lines = set s.lines row (f line) })
unfolding with_line
with_line_at row f s e = rw (e, with_line)

-- A write into a line that is there ends, if it keeps the line wide.
pub with_line-Kept :
    (row : ℕ) (f : Row → Row) (s : Screen)
    → IsValid s
    → row < length s.lines
    → ((line : Row) → IsWide s.cols line → Lasts s.cols line (f line))
    → Ends (Kept s) (with_line row f s)
with_line-Kept row f s v h keep =
    let (line, e) = get_elem?_total s.lines row h in
    let (w, u) = keep line (All-get_elem? (IsWide s.cols) s.lines row v.wide e) in
    rw (with_line_at row f s e) (
      lines-Kept _ v (length-set s.lines row (f line) ∙ v.full)
        (All-set (IsWide s.cols) s.lines row (f line) v.wide w)
        (λ g. All-set IsWhole s.lines row (f line) g (u (All-get_elem? IsWhole s.lines row g e))))
