-- ===== src/Screen/Cells/Rectangles.antt =====
-- The rectangles on the cells.

use genie_tangle.Screen.Cells.Erased.{range_leaves}
use genie_tangle.Screen.Valid.Scrolls.{update_range-Kept}
use genie_tangle.Prelude.{
  ◌≤◌, Ends, ◌∙◌, ℕ, ltb, ok, Bool-cases, arith, true, inr, Outcome, refl, length, Bool, inl, ◌<◌,
  ◌≡◌, false, zero, Ends-map, suc, ◌+◌, get_elem?-get_or, ◌-◌, Ends-bind, ap, [], ◌%◌,
}
use genie_tangle.Screen.Rectangles.{
  change_cells, change_rows, with_attr, fill_rectangle, change_rectangle, with_char,
  set_attr_in_rectangle, change_row, erase_rectangle,
}
use genie_tangle.Screen.Valid.{IsValid, Kept-refl}
use genie_tangle.Screen.Cells.Defs.{cell_at, row_at}
use genie_tangle.Screen.Buffer.{Screen, Cell, hole, update_range, cell, blank}
use genie_tangle.Screen.Cells.Changed.{
  is_inside, Changed, CellsAfter, change_cells-CellsAfter, row-Changed,
}

module _ (f : Cell → Outcome Cell) (g : Cell → Cell) where
  -- In a part of the screen `f` does what `g` does.
  abbrev pub ReadsInside : ℕ → ℕ → ℕ → ℕ → Screen → Type 0
  ReadsInside t n l r s =
      (y x : ℕ) → t ≤ y → y < t + n → l ≤ x → x < r → f (cell_at s y x) ≡ ok (g (cell_at s y x))

  change_row-Changed :
      (l r y : ℕ) (s : Screen)
      → IsValid s
      → y < s.rows
      → ReadsInside y 1 l r s
      → Ends (Changed s (is_inside y 1 l r) g) (change_row f l r y s)
  unfolding change_row
  change_row-Changed l r y s v h reads = elim (Bool-cases (ltb l r)) [
    | inl e ↦
        let i : s.ybase + y < length s.lines = omega (arith, v.full, h) in
        let there = get_elem?-get_or [] s.lines (s.ybase + y) i in
        rw (change_row, e, there)
          (Ends-bind (CellsAfter f g l (r - l) (row_at s y)) (Changed s (is_inside y 1 l r) g)
            (change_cells f (r - l) l (row_at s y)) _
            (change_cells-CellsAfter f g (r - l) l (row_at s y)
              (λ k p q. reads y k (omega arith) (omega arith) p (ground arith)))
            (λ line' c. row-Changed f g l r y s line' v h e c))
    | inr e ↦
        rw (change_row, e)
          (record {
            valid = v;
            same_cols = refl;
            same_rows = refl;
            same_x = refl;
            same_y = refl;
            cells = λ j x p p'.
                let outside : is_inside y 1 l r j x ≡ false = ground arith in rw outside refl;
          })
  ]

  -- The first row, and then the rows below it.
  Changed-next :
      (t n l r : ℕ) {s u w : Screen}
      → Changed s (is_inside t 1 l r) g u
      → Changed u (is_inside (t + 1) n l r) g w
      → Changed s (is_inside t (suc n) l r) g w
  Changed-next t n l r {s} {u} {w} a b = record {
    valid = b.valid;
    same_cols = b.same_cols ∙ a.same_cols;
    same_rows = b.same_rows ∙ a.same_rows;
    same_x = b.same_x ∙ a.same_x;
    same_y = b.same_y ∙ a.same_y;
    cells = λ y x p p'.
        let first = a.cells y x p p' in
        let then' = b.cells y x (omega (arith, p, a.same_rows)) (omega (arith, p', a.same_cols)) in
        elim (Bool-cases (is_inside (t + 1) n l r y x)) [
          | inl e ↦
              let before : is_inside t 1 l r y x ≡ false = ground arith in
              let whole : is_inside t (suc n) l r y x ≡ true = ground arith in
              let same : cell_at u y x ≡ cell_at s y x = rw before at first in
              let last : cell_at w y x ≡ g (cell_at u y x) = rw e at then' in
              rw whole (last ∙ ap g same)
          | inr e ↦
              let whole : is_inside t (suc n) l r y x ≡ is_inside t 1 l r y x = ground arith in
              let last : cell_at w y x ≡ cell_at u y x = rw e at then' in rw whole (last ∙ first)
        ];
  }

  change_rows-Changed :
      (l r n t : ℕ) (s : Screen)
      → IsValid s
      → t + n ≤ s.rows
      → r ≤ s.cols
      → ReadsInside t n l r s
      → Ends (Changed s (is_inside t n l r) g) (change_rows f l r n t s)
  unfolding change_rows
  change_rows-Changed l r zero t s v h k reads = record {
    valid = v;
    same_cols = refl;
    same_rows = refl;
    same_x = refl;
    same_y = refl;
    cells =
        λ j x p p'. let outside : is_inside t 0 l r j x ≡ false = ground arith in rw outside refl;
  }
  change_rows-Changed l r (suc n) t s v h k reads =
      Ends-bind (Changed s (is_inside t 1 l r) g) (Changed s (is_inside t (suc n) l r) g)
        (change_row f l r t s) (change_rows f l r n (t + 1))
        (change_row-Changed l r t s v (omega arith) (λ y x a b c d. reads y x a (omega arith) c d))
        (λ u a.
          Ends-map (Changed u (is_inside (t + 1) n l r) g) (Changed s (is_inside t (suc n) l r) g)
            (change_rows f l r n (t + 1) u)
            (change_rows-Changed l r n (t + 1) u a.valid (omega (arith, h, a.same_rows))
              (omega (arith, k, a.same_cols))
              (λ y x b c d e.
                let before : is_inside t 1 l r y x ≡ false = ground arith in
                let same : cell_at u y x ≡ cell_at s y x =
                  rw before at (a.cells y x (omega (arith, h, c)) (omega (arith, k, e))) in
                rw same (reads y x (omega arith) (omega arith) d e)))
            (λ w b. Changed-next t n l r a b))

  range-Changed :
      (y : ℕ) (q : ℕ → ℕ → Bool) (s t : Screen)
      → y < s.rows
      → Changed s q g t
      → Changed s q g (update_range y t)
  range-Changed y q s t b p =
      let (lines', base', x', y', attr') = range_leaves y t in
      let k = update_range-Kept y (omega (arith, b, p.same_rows)) (Kept-refl p.valid) in
      record {
        valid = k.valid;
        same_cols = k.same_cols ∙ p.same_cols;
        same_rows = k.same_rows ∙ p.same_rows;
        same_x = x' ∙ p.same_x;
        same_y = y' ∙ p.same_y;
        cells = λ j k h h'. rw (lines', base') (p.cells j k h h');
      }

  change_rectangle-Changed :
      (t l b r : ℕ) (s : Screen)
      → IsValid s
      → t ≤ b
      → b < s.rows
      → r ≤ s.cols
      → ReadsInside t (b + 1 - t) l r s
      → Ends (Changed s (is_inside t (b + 1 - t) l r) g) (change_rectangle f t l b r s)
  change_rectangle-Changed t l b r s v h k m reads =
      let q = is_inside t (b + 1 - t) l r in
      Ends-bind (Changed s q g) (Changed s q g) (change_rows f l r (b + 1 - t) t s) _
        (change_rows-Changed l r (b + 1 - t) t s v (omega arith) m reads)
        (λ u a. range-Changed b q s (update_range t u) k (range-Changed t q s u (omega arith) a))

-- What the three handlers do to a cell.
abbrev pub attr_changed : ℕ → Cell → Cell
attr_changed attr hole = hole
attr_changed attr (cell a c) = cell attr c

abbrev pub char_changed : ℕ → Cell → Cell
char_changed ch hole = hole
char_changed ch (cell a c) = cell a (ch % 65536)

-- Every place of the screen holds a cell.
abbrev pub LacksHole : Screen → Type 0
LacksHole s = (y x : ℕ) → y < s.rows → x < s.cols → (a : ℕ) × (c : ℕ) × (cell_at s y x ≡ cell a c)

reads_cells :
    (f : Cell → Outcome Cell) (g : Cell → Cell) (t b l r : ℕ) (s : Screen)
    → ((a c : ℕ) → f (cell a c) ≡ ok (g (cell a c)))
    → b < s.rows
    → r ≤ s.cols
    → LacksHole s
    → ReadsInside f g t (b + 1 - t) l r s
reads_cells f g t b l r s e h k full y x p q m n =
    let (a, c, there) = full y x (omega arith) (omega arith) in rw there (e a c)

-- On a valid screen where every place holds a cell, and for a rectangle on the screen, `setAttrInRectangle`,
-- `fillRectangle` and `eraseRectangle` throw nowhere and change just the cells in the rows from the
-- top to the bottom, both included, and in the columns from the left to the one before the right. Of such a cell
-- the first makes the number its whole attribute, the second makes the
-- low 16 bits of the number its character, the third makes it blank.
pub rectangles-Changed :
    (t l b r p : ℕ) (s : Screen)
    → IsValid s
    → LacksHole s
    → t ≤ b
    → b < s.rows
    → r ≤ s.cols
    → let q = is_inside t (b + 1 - t) l r in
      Ends (Changed s q (attr_changed p)) (set_attr_in_rectangle t l b r p s)
      × Ends (Changed s q (char_changed p)) (fill_rectangle p t l b r s)
      × Ends (Changed s q (λ c. blank s)) (erase_rectangle t l b r s)
unfolding set_attr_in_rectangle fill_rectangle erase_rectangle
rectangles-Changed t l b r p s v full h k m = (
  change_rectangle-Changed (with_attr p) (attr_changed p) t l b r s v h k m
      (reads_cells (with_attr p) (attr_changed p) t b l r s (λ a c. refl) k m full),
  change_rectangle-Changed (with_char p) (char_changed p) t l b r s v h k m
      (reads_cells (with_char p) (char_changed p) t b l r s (λ a c. refl) k m full),
  change_rectangle-Changed (λ c. ok (blank s)) (λ c. blank s) t l b r s v h k m
      (λ y x a b' c d. refl),
)
