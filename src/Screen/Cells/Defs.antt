-- ===== src/Screen/Cells/Defs.antt =====
-- The cells of the screen, and what it is to paint some of them blank.
use genie_tangle.Screen.Valid.{
  Kept-refl, IsValid, Kept, Kept-trans, IsWide, with_line-Kept, with_line_at, Lasts,
}
use genie_tangle.Screen.Buffer.{Row, Screen, with_line, Cell, hole, cell, space, blank}
use genie_tangle.Prelude.{
  ap, ◌∙◌, get_or, ◌≡◌, ℕ, ◌||◌, length, if◌then◌else◌, [], ◌&&◌, ◌==◌, false, refl, Ends, Bool,
  if◌then◌else◌, if◌then◌else◌, ◌+◌, true, ◌<◌, arith, get_elem?-get_or, inr, All-get_elem?,
  get_or-set, inl, Bool-cases, subst,
}

-- The cell in a row and a column of the screen.
abbrev pub cell_at : Screen → ℕ → ℕ → Cell
cell_at s y x = get_or (get_or s.lines (s.ybase + y) []) x hole

-- The cells that `q` picks are blank in the current attributes, the others are as they were, and so
-- are the cursor, the attributes and the size.
pub record Painted (s : Screen) (q : ℕ → ℕ → Bool) (t : Screen) : Type 0 where
  pub kept : Kept s t
  pub same_x : t.x ≡ s.x
  pub same_y : t.y ≡ s.y
  pub same_attr : t.cur_attr ≡ s.cur_attr
  pub cells :
      (y x : ℕ)
      → y < s.rows
      → x < s.cols
      → cell_at t y x ≡ (if q y x then blank s else cell_at s y x)

pub Painted-refl : (s : Screen) → IsValid s → Painted s (λ y x. false) s
Painted-refl s v = record {
  kept = Kept-refl v;
  same_x = refl;
  same_y = refl;
  same_attr = refl;
  cells = λ y x h k. refl;
}

-- Other cells picked the same are picked as well.
pub Painted-same :
    {s t : Screen} (q q' : ℕ → ℕ → Bool)
    → ((y x : ℕ) → y < s.rows → x < s.cols → q y x ≡ q' y x)
    → Painted s q t
    → Painted s q' t
Painted-same q q' e p = record {
  kept = p.kept;
  same_x = p.same_x;
  same_y = p.same_y;
  same_attr = p.same_attr;
  cells = λ y x h k. rw (← e y x h k) (p.cells y x h k);
}

-- Painting twice paints what one of the two paints.
pub Painted-trans :
    {s t u : Screen} (q r : ℕ → ℕ → Bool)
    → Painted s q t
    → Painted t r u
    → Painted s (λ y x. r y x || q y x) u
Painted-trans {s} {t} {u} q r p p' = record {
  kept = Kept-trans p.kept p'.kept;
  same_x = p'.same_x ∙ p.same_x;
  same_y = p'.same_y ∙ p.same_y;
  same_attr = p'.same_attr ∙ p.same_attr;
  cells = λ y x h k.
      p'.cells y x (omega (arith, h, p.kept.same_rows)) (omega (arith, k, p.kept.same_cols))
      ∙ either (cell_at s y x) (r y x) (q y x) (ap (λ (a : ℕ). cell a space) p.same_attr)
          (p.cells y x h k);
}
  where
    either :
        {a b c : Cell} (d : Cell) (m n : Bool)
        → a ≡ b
        → c ≡ (if n then b else d)
        → (if m then a else c) ≡ (if m || n then b else d)
    either d true n e e' = e
    either d false n e e' = e'

-- A write into one row that keeps it wide and makes the cells of `q` blank.
pub with_line-Painted :
    (y : ℕ) (f : Row → Row) (q : ℕ → Bool) (s : Screen)
    → IsValid s
    → y < s.rows
    → ((line : Row) → IsWide s.cols line → Lasts s.cols line (f line))
    → ((line : Row) (x : ℕ)
        → x < s.cols
        → get_or (f line) x hole ≡ (if q x then blank s else get_or line x hole))
    → Ends (Painted s (λ j x. j == y && q x)) (with_line (s.ybase + y) f s)
with_line-Painted y f q s v h keep e =
    let i : s.ybase + y < length s.lines = omega (arith, v.full, h) in
    let line = get_or s.lines (s.ybase + y) [] in
    let w = with_line_at (s.ybase + y) f s (get_elem?-get_or [] s.lines (s.ybase + y) i) in
    let k = subst (Ends (Kept s)) w (with_line-Kept (s.ybase + y) f s v i keep) in
    let wide =
      All-get_elem? (IsWide s.cols) s.lines (s.ybase + y) v.wide
        (get_elem?-get_or [] s.lines (s.ybase + y) i) in
    rw w (record {
      kept = k;
      same_x = refl;
      same_y = refl;
      same_attr = refl;
      cells = λ j x p p'. elim (Bool-cases (j == y)) [
        | inl same ↦
            rw
              (
                same,
                get_or-set [] s.lines (s.ybase + y) (s.ybase + j) (f line) i,
                same_row j y same,
                same_place j y same,
              )
              (e line x p')
        | inr other ↦
            rw
              (
                other,
                get_or-set [] s.lines (s.ybase + y) (s.ybase + j) (f line) i,
                other_row j y other,
              )
              refl
      ];
    })
  where
    same_row : (j y : ℕ) → (j == y) ≡ true → (s.ybase + j == s.ybase + y) ≡ true
    same_row j y e = ground arith

    other_row : (j y : ℕ) → (j == y) ≡ false → (s.ybase + j == s.ybase + y) ≡ false
    other_row j y e = ground arith

    same_place : (j y : ℕ) → (j == y) ≡ true → j ≡ y
    same_place j y e = ground arith

-- The line in a row of the screen.
abbrev pub row_at : Screen → ℕ → Row
row_at s y = get_or s.lines (s.ybase + y) []

-- One row becomes `line`, the others are as they were, and so are the cursor, the attributes and the
-- size.
pub record RowWritten (s : Screen) (y : ℕ) (line : Row) (t : Screen) : Type 0 where
  pub kept : Kept s t
  pub same_x : t.x ≡ s.x
  pub same_y : t.y ≡ s.y
  pub same_attr : t.cur_attr ≡ s.cur_attr
  pub written : row_at t y ≡ line
  pub others : (j : ℕ) → (j == y) ≡ false → row_at t j ≡ row_at s j

pub with_line-RowWritten :
    (row y : ℕ) (f : Row → Row) (s : Screen)
    → IsValid s
    → y < s.rows
    → row ≡ s.ybase + y
    → ((line : Row) → IsWide s.cols line → Lasts s.cols line (f line))
    → Ends (RowWritten s y (f (row_at s y))) (with_line row f s)
with_line-RowWritten row y f s v h r keep =
    let i : s.ybase + y < length s.lines = omega (arith, v.full, h) in
    let w = with_line_at (s.ybase + y) f s (get_elem?-get_or [] s.lines (s.ybase + y) i) in
    let k = subst (Ends (Kept s)) w (with_line-Kept (s.ybase + y) f s v i keep) in
    let line = f (row_at s y) in
    rw (r, w)
      (record {
        kept = k;
        same_x = refl;
        same_y = refl;
        same_attr = refl;
        written =
            get_or-set [] s.lines (s.ybase + y) (s.ybase + y) line i
            ∙ rw (itself (s.ybase + y)) refl;
        others =
            λ j e. get_or-set [] s.lines (s.ybase + y) (s.ybase + j) line i ∙ rw (apart j e) refl;
      })
  where
    itself : (n : ℕ) → (n == n) ≡ true
    itself n = ground arith

    apart : (j : ℕ) → (j == y) ≡ false → (s.ybase + j == s.ybase + y) ≡ false
    apart j e = ground arith

-- Where the line that is written is known, and the result may be described otherwise.
pub IsWide-row : {s : Screen} → IsValid s → (y : ℕ) → y < s.rows → IsWide s.cols (row_at s y)
IsWide-row {s} v y h =
    All-get_elem? (IsWide s.cols) s.lines (s.ybase + y) v.wide
      (get_elem?-get_or [] s.lines (s.ybase + y) (omega (arith, v.full, h)))
