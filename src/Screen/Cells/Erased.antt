-- ===== src/Screen/Cells/Erased.antt =====
-- `eraseInDisplay` and `eraseInLine` on the cells.
use genie_tangle.Screen.Valid.Scrolls.{update_range-Kept}
use genie_tangle.Screen.Valid.Lasting.{fill_left-Lasts, fill_right-Lasts}
use genie_tangle.Screen.Valid.{IsValid}
use genie_tangle.Screen.Cells.Defs.{
  Painted, Painted-refl, Painted-trans, with_line-Painted, Painted-same,
}
use genie_tangle.Screen.Buffer.{hole, Cell, first, Screen, update_range, Row, blank}
use genie_tangle.Prelude.{
  Bool, ok, zero, ◌<◌, if◌then◌else◌, ◌==◌, if◌then◌else◌, leb, ◌≤◌, ◌&&◌, Ends, get_or, ◌>>=◌,
  List, ◌≡◌, if◌then◌else◌, Outcome, ℕ, ◌∙◌, Ends-bind, ◌+◌, ltb, suc, ◌||◌, get_or-assign, arith,
  Bool-cases, Ends-map, ◌-◌, false, refl, inl, inr,
}
use genie_tangle.Screen.Erase.{
  erase_in_line, fill_left, erase_above, erase_left, erase_right, erase_below, erase_line,
  fill_right, erase_in_display,
}

fill_right-cells :
    (n x k : ℕ) (ch : Cell) (line : Row)
    → get_or (fill_right n x ch line) k hole
      ≡ (if leb x k && ltb k (x + n) then ch else get_or line k hole)
unfolding fill_right
fill_right-cells zero x k ch line = ground arith
fill_right-cells (suc n) x k ch line =
    fill_right-cells n (x + 1) k ch _ ∙ rw (get_or-assign hole line x k ch) (ground arith)

fill_left-cells :
    (x k : ℕ) (ch : Cell) (line : Row)
    → get_or (fill_left x ch line) k hole ≡ (if ltb k x then ch else get_or line k hole)
unfolding fill_left
fill_left-cells zero k ch line = ground arith
fill_left-cells (suc x) k ch line =
    fill_left-cells x k ch _ ∙ rw (get_or-assign hole line x k ch) (ground arith)

pub range_leaves :
    (y : ℕ) (t : Screen)
    → ((update_range y t).lines ≡ t.lines)
      × ((update_range y t).ybase ≡ t.ybase)
      × ((update_range y t).x ≡ t.x)
      × ((update_range y t).y ≡ t.y)
      × ((update_range y t).cur_attr ≡ t.cur_attr)
unfolding update_range
range_leaves y t = ground arith

range-Painted :
    (y : ℕ) (q : ℕ → ℕ → Bool) (s t : Screen)
    → y < s.rows
    → Painted s q t
    → Painted s q (update_range y t)
range-Painted y q s t b p =
    let (lines', base', x', y', attr') = range_leaves y t in
    record {
      kept = update_range-Kept y b p.kept;
      same_x = x' ∙ p.same_x;
      same_y = y' ∙ p.same_y;
      same_attr = attr' ∙ p.same_attr;
      cells = λ j k h h'. rw (lines', base') (p.cells j k h h');
    }

update_range-Painted :
    (y : ℕ) (q : ℕ → ℕ → Bool) (s : Screen) (m : Outcome Screen)
    → y < s.rows
    → Ends (Painted s q) m
    → Ends (Painted s q) (m >>= λ t. ok (update_range y t))
update_range-Painted y q s m b h =
    Ends-bind (Painted s q) (Painted s q) m _ h (λ t p. range-Painted y q s t b p)

Ends-same :
    (q q' : ℕ → ℕ → Bool) (s : Screen) (m : Outcome Screen)
    → ((y x : ℕ) → y < s.rows → x < s.cols → q y x ≡ q' y x)
    → Ends (Painted s q) m
    → Ends (Painted s q') m
Ends-same q q' s m e h = Ends-map (Painted s q) (Painted s q') m h (λ t p. Painted-same q q' e p)

erase_right-Painted :
    (x y : ℕ) (s : Screen)
    → IsValid s
    → y < s.rows
    → Ends (Painted s (λ j k. j == y && leb x k)) (erase_right x y s)
unfolding erase_right
erase_right-Painted x y s v h = update_range-Painted y _ s _ h (elim (Bool-cases (ltb x s.cols)) [
  | inl e ↦ rw e (
      with_line-Painted y (fill_right (s.cols - x) x (blank s)) (leb x) s v h
        (λ line. fill_right-Lasts s.cols (s.cols - x) x (blank s) line tt (ground arith))
        (λ line k p. fill_right-cells (s.cols - x) x k (blank s) line ∙ rw (inside k p) refl))
  | inr e ↦ rw e (Painted-same _ _ (λ j k p p'. outside j k p' e) (Painted-refl s v))
])
  where
    inside : (k : ℕ) → k < s.cols → (leb x k && ltb k (x + (s.cols - x))) ≡ leb x k
    inside k p = ground arith

    outside : (j k : ℕ) → k < s.cols → ltb x s.cols ≡ false → false ≡ (j == y && leb x k)
    outside j k p e = ground arith

erase_left-Painted :
    (x y : ℕ) (s : Screen)
    → IsValid s
    → y < s.rows
    → Ends (Painted s (λ j k. j == y && leb k x)) (erase_left x y s)
unfolding erase_left
erase_left-Painted x y s v h = update_range-Painted y _ s _ h (
    with_line-Painted y (fill_left (x + 1) (blank s)) (λ k. leb k x) s v h
      (λ line. fill_left-Lasts s.cols (x + 1) (blank s) line tt)
      (λ line k p. fill_left-cells (x + 1) k (blank s) line ∙ rw (up_to k) refl))
  where
    up_to : (k : ℕ) → ltb k (x + 1) ≡ leb k x
    up_to k = ground arith

erase_line-Painted :
    (y : ℕ) (s : Screen)
    → IsValid s
    → y < s.rows
    → Ends (Painted s (λ j k. j == y)) (erase_line y s)
unfolding erase_line
erase_line-Painted y s v h =
    Ends-same _ _ s (erase_right 0 y s) (λ j k p p'. ground arith) (erase_right-Painted 0 y s v h)

-- Two steps, the second on what the first has painted.
and_then-Painted :
    (q r : ℕ → ℕ → Bool) (s : Screen) (m : Outcome Screen) (f : Screen → Outcome Screen)
    → Ends (Painted s q) m
    → ((t : Screen) → Painted s q t → Ends (Painted t r) (f t))
    → Ends (Painted s (λ y x. r y x || q y x)) (m >>= f)
and_then-Painted q r s m f h k =
    Ends-bind (Painted s q) (Painted s (λ y x. r y x || q y x)) m f h (λ t a.
      Ends-map (Painted t r) (Painted s (λ y x. r y x || q y x)) (f t) (k t a)
        (λ u b. Painted-trans q r a b))

erase_below-Painted :
    (n j : ℕ) (s : Screen)
    → IsValid s
    → j + n ≤ s.rows
    → Ends (Painted s (λ i k. leb j i && ltb i (j + n))) (erase_below n j s)
unfolding erase_below
erase_below-Painted zero j s v h = Painted-same _ _ (λ i k p p'. ground arith) (Painted-refl s v)
erase_below-Painted (suc n) j s v h =
    Ends-same _ _ s (erase_line j s >>= erase_below n (j + 1)) (λ i k p p'. ground arith)
      (and_then-Painted _ _ s (erase_line j s) (erase_below n (j + 1))
        (erase_line-Painted j s v (omega arith))
        (λ t a. erase_below-Painted n (j + 1) t a.kept.valid (omega (arith, a.kept.same_rows))))

erase_above-Painted :
    (j : ℕ) (s : Screen)
    → IsValid s
    → j ≤ s.rows
    → Ends (Painted s (λ i k. ltb i j)) (erase_above j s)
unfolding erase_above
erase_above-Painted zero s v h = Painted-same _ _ (λ i k p p'. ground arith) (Painted-refl s v)
erase_above-Painted (suc j) s v h =
    Ends-same _ _ s (erase_line j s >>= erase_above j) (λ i k p p'. ground arith)
      (and_then-Painted _ _ s (erase_line j s) (erase_above j)
        (erase_line-Painted j s v (omega arith))
        (λ t a. erase_above-Painted j t a.kept.valid (omega (arith, a.kept.same_rows))))

-- The cells that `eraseInDisplay` erases: from the cursor on, up to the cursor, or all.
abbrev pub erased_in_display : ℕ → Screen → ℕ → ℕ → Bool
erased_in_display p s y x =
    if p == 0
    then ltb s.y y || (y == s.y && leb s.x x)
    else if p == 1
    then ltb y s.y || (y == s.y && leb x s.x)
    else p == 2

-- `eraseInDisplay` on a valid screen is without a fault and makes blank, in the current attributes,
-- for the parameter 0 just the cells from the cursor on, for 1 just those up to the cursor, for 2 all,
-- and for another none; it moves no cursor.
pub erase_in_display-Painted :
    (ps : List ℕ) (s : Screen)
    → IsValid s
    → Ends (Painted s (erased_in_display (first ps) s)) (erase_in_display ps s)
unfolding erase_in_display
erase_in_display-Painted ps s v = elim (Bool-cases (first ps == 0)) [
  | inl e ↦ rw e (
      Ends-same _ _ s (erase_right s.x s.y s >>= erase_below (s.rows - (s.y + 1)) (s.y + 1))
        (λ j k p p'. ground arith)
        (and_then-Painted _ _ s (erase_right s.x s.y s) _ (erase_right-Painted s.x s.y s v v.row_in)
          (λ t a.
            erase_below-Painted (s.rows - (s.y + 1)) (s.y + 1) t a.kept.valid
              (omega (arith, v.row_in, a.kept.same_rows)))))
  | inr e ↦ rw e (elim (Bool-cases (first ps == 1)) [
    | inl e' ↦ rw e' (
        Ends-same _ _ s (erase_left s.x s.y s >>= erase_above s.y) (λ j k p p'. ground arith)
          (and_then-Painted _ _ s (erase_left s.x s.y s) _ (erase_left-Painted s.x s.y s v v.row_in)
            (λ t a.
              erase_above-Painted s.y t a.kept.valid (omega (arith, v.row_in, a.kept.same_rows)))))
    | inr e' ↦ rw e' (elim (Bool-cases (first ps == 2)) [
      | inl e'' ↦ rw e'' (
          Ends-same _ _ s (erase_above s.rows s) (λ j k p p'. ground arith)
            (erase_above-Painted s.rows s v (omega arith)))
      | inr e'' ↦ rw e'' (Painted-same _ _ (λ j k p p'. ground arith) (Painted-refl s v))
    ])
  ])
]

-- The cells that `eraseInLine` erases.
abbrev pub erased_in_line : ℕ → Screen → ℕ → ℕ → Bool
erased_in_line p s y x =
    y == s.y && (if p == 0 then leb s.x x else if p == 1 then leb x s.x else p == 2)

-- `eraseInLine` on a valid screen is without a fault and makes blank, in the current attributes, in
-- the row of the cursor, for the parameter 0 just the cells from the cursor on, for 1 just those up to
-- the cursor, for 2 all, and for another none; every other cell stays, and so does the cursor.
erase_in_line-Painted :
    (ps : List ℕ) (s : Screen)
    → IsValid s
    → Ends (Painted s (erased_in_line (first ps) s)) (erase_in_line ps s)
unfolding erase_in_line
erase_in_line-Painted ps s v = elim (Bool-cases (first ps == 0)) [
  | inl e ↦ rw e (
      Ends-same _ _ s (erase_right s.x s.y s) (λ j k p p'. ground arith)
        (erase_right-Painted s.x s.y s v v.row_in))
  | inr e ↦ rw e (elim (Bool-cases (first ps == 1)) [
    | inl e' ↦ rw e' (
        Ends-same _ _ s (erase_left s.x s.y s) (λ j k p p'. ground arith)
          (erase_left-Painted s.x s.y s v v.row_in))
    | inr e' ↦ rw e' (elim (Bool-cases (first ps == 2)) [
      | inl e'' ↦ rw e'' (
          Ends-same _ _ s (erase_line s.y s) (λ j k p p'. ground arith)
            (erase_line-Painted s.y s v v.row_in))
      | inr e'' ↦ rw e'' (Painted-same _ _ (λ j k p p'. ground arith) (Painted-refl s v))
    ])
  ])
]
