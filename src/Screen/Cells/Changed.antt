-- ===== src/Screen/Cells/Changed.antt =====
-- Some cells of the screen are changed, each in the same way: the loop over the cells of a row.

use genie_tangle.Prelude.{
  if◌then◌else◌, ◌≤◌, Ends, ◌∙◌, ℕ, length-assign, ltb, ok, Bool-cases, arith, true, inr, Outcome,
  refl, length, Bool, inl, if◌then◌else◌, ◌<◌, assign, ◌==◌, ◌≡◌, false, zero, Ends-map, leb,
  get_or-assign, suc, if◌then◌else◌, ◌&&◌, ◌+◌, get_or, get_or-set, set, length-set, ◌-◌, All-set,
  [],
}
use genie_tangle.Screen.Rectangles.{change_cells}
use genie_tangle.Screen.Valid.{IsWide, IsValid}
use genie_tangle.Screen.Cells.Defs.{cell_at, IsWide-row, row_at}
use genie_tangle.Screen.Buffer.{Screen, Cell, hole, Row}

-- The places from the row `t` on, `n` rows, and from the column `l` on, before the column `r`.
abbrev pub is_inside : ℕ → ℕ → ℕ → ℕ → ℕ → ℕ → Bool
is_inside t n l r y x = (leb t y && ltb y (t + n)) && (leb l x && ltb x r)

-- The cells that `q` picks are changed by `g`, the others are as they were, and so are the cursor and the
-- size.
pub record Changed (s : Screen) (q : ℕ → ℕ → Bool) (g : Cell → Cell) (t : Screen) : Type 0 where
  pub valid : IsValid t
  pub same_cols : t.cols ≡ s.cols
  pub same_rows : t.rows ≡ s.rows
  pub same_x : t.x ≡ s.x
  pub same_y : t.y ≡ s.y
  pub cells :
      (y x : ℕ)
      → y < s.rows
      → x < s.cols
      → cell_at t y x ≡ (if q y x then g (cell_at s y x) else cell_at s y x)

module _ (f : Cell → Outcome Cell) (g : Cell → Cell) where
  -- In the columns of the loop `f` does what `g` does.
  abbrev pub ReadsIn : ℕ → ℕ → Row → Type 0
  ReadsIn i n line =
      (k : ℕ) → i ≤ k → k < i + n → f (get_or line k hole) ≡ ok (g (get_or line k hole))

  abbrev pub CellsAfter : ℕ → ℕ → Row → Row → Type 0
  CellsAfter i n line line' =
      (length line ≤ length line')
      × ((k : ℕ)
          → get_or line' k hole
            ≡ (if leb i k && ltb k (i + n) then g (get_or line k hole) else get_or line k hole))

  pub change_cells-CellsAfter :
      (n i : ℕ) (line : Row)
      → ReadsIn i n line
      → Ends (CellsAfter i n line) (change_cells f n i line)
  unfolding change_cells
  change_cells-CellsAfter zero i line h = (omega arith, λ k. ground arith)
  change_cells-CellsAfter (suc n) i line h =
      let v = g (get_or line i hole) in
      let next = assign hole line i v in
      let later : ReadsIn (i + 1) n next = λ k p q.
        let ne : (k == i) ≡ false = ground arith in
        rw (get_or-assign hole line i k v, ne) (h k (omega arith) (omega arith)) in
      rw (h i (omega arith) (omega arith)) (
        Ends-map (CellsAfter (i + 1) n next) (CellsAfter i (suc n) line)
          (change_cells f n (i + 1) next) (change_cells-CellsAfter n (i + 1) next later)
          (λ line' (a, b).
            (omega (arith, a, length-assign hole line i v), λ k. b k ∙ one_more i n k line)))
    where
      one_more :
          (i n k : ℕ) (line : Row)
          → (if leb (i + 1) k && ltb k (i + 1 + n)
              then g (get_or (assign hole line i (g (get_or line i hole))) k hole)
              else get_or (assign hole line i (g (get_or line i hole))) k hole)
            ≡ (if leb i k && ltb k (i + suc n) then g (get_or line k hole) else get_or line k hole)
      one_more i n k line =
          rw (get_or-assign hole line i k (g (get_or line i hole))) (elim (Bool-cases (k == i)) [
            | inl e ↦
                let p : k ≡ i = ground arith in
                let a : (leb (i + 1) i && ltb i (i + 1 + n)) ≡ false = ground arith in
                let b : (leb i i && ltb i (i + suc n)) ≡ true = ground arith in
                let c : (i == i) ≡ true = ground arith in rw (p, a, b, c) refl
            | inr e ↦
                let a : (leb (i + 1) k && ltb k (i + 1 + n)) ≡ (leb i k && ltb k (i + suc n)) =
                  ground arith in
                rw (e, a) refl
          ])

  -- One row.
  pub row-Changed :
      (l r y : ℕ) (s : Screen) (line' : Row)
      → IsValid s
      → y < s.rows
      → ltb l r ≡ true
      → CellsAfter l (r - l) (row_at s y) line'
      → Changed s (is_inside y 1 l r) g (record s { lines = set s.lines (s.ybase + y) line' })
  row-Changed l r y s line' v h e (n, c) =
      let i : s.ybase + y < length s.lines = omega (arith, v.full, h) in
      let w = IsWide-row v y h in
      record {
        valid = record {
          cols_pos = v.cols_pos;
          full = length-set s.lines (s.ybase + y) line' ∙ v.full;
          wide = All-set (IsWide s.cols) s.lines (s.ybase + y) line' v.wide (omega (arith, n, w));
          row_in = v.row_in;
          region_order = v.region_order;
          region_in = v.region_in;
          base_in = v.base_in;
          disp_in = v.disp_in;
          saved_in = v.saved_in;
        };
        same_cols = refl;
        same_rows = refl;
        same_x = refl;
        same_y = refl;
        cells = λ j x p p'. elim (Bool-cases (j == y)) [
          | inl same ↦
              let q : j ≡ y = ground arith in
              let here : (s.ybase + y == s.ybase + y) ≡ true = ground arith in
              let inside : is_inside y 1 l r y x ≡ (leb l x && ltb x (l + (r - l))) =
                ground arith in
              rw (q, get_or-set [] s.lines (s.ybase + y) (s.ybase + y) line' i, here, inside) (c x)
          | inr other ↦
              let there : (s.ybase + j == s.ybase + y) ≡ false = ground arith in
              let outside : is_inside y 1 l r j x ≡ false = ground arith in
              rw (get_or-set [] s.lines (s.ybase + y) (s.ybase + j) line' i, there, outside) refl
        ];
      }
