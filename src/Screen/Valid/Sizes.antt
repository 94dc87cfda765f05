-- ===== src/Screen/Valid/Sizes.antt =====
-- The constructor and a change of size, on the invariant of the screen.
use genie_tangle.Screen.Tabs.{setup_stops}
use genie_tangle.Screen.Valid.Defs.{
  IsValid, IsWide, blank_line-IsWide, Kept, IsCell, IsWhole, blank_line-IsWhole, IsFull,
}
use genie_tangle.Screen.Size.{
  add_rows, widen, map_lines, remove_rows, resize_cols, resize_rows, resize, construct,
}
use genie_tangle.Screen.Buffer.{
  Screen, space, def_attr, cell, Row, blank_line, at_least_one, default_rows, default_cols,
}
use genie_tangle.Prelude.{
  All-pop, length, All, arith, ◌∷◌, ◌<◌, All-append, ◌≡◌, ◌+◌, length-take, length-append, List,
  suc, ap, ◌-◌, ◌++◌, length-replicate, pop, ℕ, All-map, lt→ltb, length-pop, refl, replicate, zero,
  take, [], ◌≤◌, ltb, if-both, false, All-replicate, ◌∙◌, ◌==◌, if◌then◌else◌, if◌then◌else◌,
  if◌then◌else◌, All-take,
}

length-map_lines : (f : Row → Row) (ls : List Row) → length (map_lines f ls) ≡ length ls
length-map_lines f [] = refl
length-map_lines f (l ∷ ls) = ap suc (length-map_lines f ls)

All-map_lines :
    (P Q : Row → Type 0) (f : Row → Row) (ls : List Row)
    → ((line : Row) → P line → Q (f line))
    → All P ls
    → All Q (map_lines f ls)
All-map_lines P Q f [] k h = tt
All-map_lines P Q f (l ∷ ls) k h = (k l h.0, All-map_lines P Q f ls k h.1)

widen-IsWide : (x : ℕ) (line : Row) → IsWide x (widen x line)
widen-IsWide x line = omega (
  arith,
  length-append line (replicate (x - length line) (cell def_attr space)),
  length-replicate (x - length line) (cell def_attr space),
)

take-IsWide : (c x : ℕ) (line : Row) → x ≤ c → IsWide c line → IsWide x (take x line)
take-IsWide c x line h w = omega (arith, length-take x line)

-- The buffer is as long as asked for.
length-add_rows :
    (n size : ℕ) (line : Row) (ls : List Row)
    → length ls + n ≡ size
    → length (add_rows n size line ls) ≡ size
unfolding add_rows
length-add_rows zero size line ls h = omega arith
length-add_rows (suc n) size line ls h =
    rw (lt→ltb (length ls) size (omega arith)) (
      length-add_rows n size line (ls ++ (line ∷ [])) (omega (arith, length-append ls (line ∷ []))))

add_rows-All :
    (P : Row → Type 0) (n size : ℕ) (line : Row) (ls : List Row)
    → P line
    → All P ls
    → All P (add_rows n size line ls)
unfolding add_rows
add_rows-All P zero size line ls p h = h
add_rows-All P (suc n) size line ls p h =
    add_rows-All P n size line _ p
      (if-both (All P) (ltb (length ls) size) (All-append P ls (line ∷ []) h (p, tt)) h)

length-remove_rows :
    (n size : ℕ) (ls : List Row) → length ls ≡ size + n → length (remove_rows n size ls) ≡ size
unfolding remove_rows
length-remove_rows zero size ls h = omega arith
length-remove_rows (suc n) size ls h =
    rw (lt→ltb size (length ls) (omega arith))
      (length-remove_rows n size (pop ls) (omega (arith, length-pop ls)))

remove_rows-All :
    (P : Row → Type 0) (n size : ℕ) (ls : List Row) → All P ls → All P (remove_rows n size ls)
unfolding remove_rows
remove_rows-All P zero size ls h = h
remove_rows-All P (suc n) size ls h =
    remove_rows-All P n size _ (if-both (All P) (ltb size (length ls)) (All-pop P ls h) h)

resize_cols-IsValid : (x : ℕ) (s : Screen) → 0 < x → IsValid s → IsValid (resize_cols x s)
unfolding resize_cols setup_stops
resize_cols-IsValid x s p v = ground (
  arith,
  length-map_lines (widen x) s.lines,
  length-map_lines (take x) s.lines,
  All-map_lines (IsWide s.cols) (IsWide x) (widen x) s.lines (λ l w. widen-IsWide x l) v.wide,
  narrow,
  same,
)
  where
    narrow : x < s.cols → All (IsWide x) (map_lines (take x) s.lines)
    narrow h =
        All-map_lines (IsWide s.cols) (IsWide x) (take x) s.lines
          (λ l w. take-IsWide s.cols x l (omega arith) w) v.wide

    same : x ≤ s.cols → All (IsWide x) s.lines
    same h = All-map (IsWide s.cols) (IsWide x) s.lines (λ l w. omega arith) v.wide

resize_rows-lines :
    (y : ℕ) (s : Screen)
    → 0 < y
    → IsValid s
    → let t = resize_rows y s in (length t.lines ≡ t.ybase + t.rows) × All (IsWide s.cols) t.lines
unfolding resize_rows
resize_rows-lines y s p v =
    let size = y + s.ybase in
    ground (
      arith,
      length-add_rows (y - s.rows) size (blank_line false s) s.lines,
      length-remove_rows (s.rows - y) size s.lines,
      add_rows-All (IsWide s.cols) (y - s.rows) size (blank_line false s) s.lines
          (blank_line-IsWide false s) v.wide,
      remove_rows-All (IsWide s.cols) (s.rows - y) size s.lines v.wide,
    )

at_least_one_pos : (p : ℕ) → 0 < at_least_one p
unfolding at_least_one
at_least_one_pos p = ground arith

-- After `resize` the buffer is the scrollback and the new screen.
pub length-resize :
    (x y : ℕ) (s : Screen) → IsValid s → length (resize x y s).lines ≡ s.ybase + at_least_one y
unfolding resize resize_cols resize_rows setup_stops
length-resize x y s v =
    let c = resize_cols (at_least_one x) s in
    let w = resize_cols-IsValid (at_least_one x) s (at_least_one_pos x) v in
    (resize_rows-lines (at_least_one y) c (at_least_one_pos y) w).0

-- After `resize` the screen is valid, provided that the saved row still lies on it: `resize` moves
-- the cursor onto the new screen, and leaves the saved cursor where it was.
pub resize-IsValid :
    (x y : ℕ) (s : Screen) → IsValid s → s.saved_y < at_least_one y → IsValid (resize x y s)
unfolding resize resize_cols resize_rows setup_stops
resize-IsValid x y s v h =
    let y' = at_least_one y in
    let y_pos : 0 < y' = at_least_one_pos y in
    let c = resize_cols (at_least_one x) s in
    let w = resize_cols-IsValid (at_least_one x) s (at_least_one_pos x) v in
    let (n, a) = resize_rows-lines y' c y_pos w in
    record {
      cols_pos = w.cols_pos;
      full = n;
      wide = a;
      row_in = ground (arith, y_pos);
      region_order = omega arith;
      region_in = omega (arith, y_pos);
      base_in = v.base_in;
      disp_in = v.disp_in;
      saved_in = h;
    }

widen-IsWhole : (x : ℕ) (line : Row) → IsWhole line → IsWhole (widen x line)
widen-IsWhole x line h =
    All-append IsCell line _ h (All-replicate IsCell (x - length line) (cell def_attr space) tt)

resize_cols-IsFull : (x : ℕ) (s : Screen) → IsFull s → IsFull (resize_cols x s)
unfolding resize_cols setup_stops
resize_cols-IsFull x s h =
    if-both (All IsWhole) (ltb s.cols x)
      (All-map_lines IsWhole IsWhole (widen x) s.lines (widen-IsWhole x) h)
      (if-both (All IsWhole) (ltb x s.cols)
        (All-map_lines IsWhole IsWhole (take x) s.lines (λ l w. All-take IsCell x l w) h) h)

resize_rows-IsFull : (y : ℕ) (s : Screen) → IsFull s → IsFull (resize_rows y s)
unfolding resize_rows
resize_rows-IsFull y s h =
    if-both (All IsWhole) (ltb s.rows y)
      (add_rows-All IsWhole (y - s.rows) (y + s.ybase) (blank_line false s) s.lines
        (blank_line-IsWhole false s) h)
      (remove_rows-All IsWhole (s.rows - y) (y + s.ybase) s.lines h)

-- A change of size makes no gap.
pub resize-IsFull : (x y : ℕ) (s : Screen) → IsFull s → IsFull (resize x y s)
unfolding resize
resize-IsFull x y s h = resize_rows-IsFull _ _ (resize_cols-IsFull _ s h)

-- The size that the constructor is given is kept, unless it is 0.
abbrev or_default : ℕ → ℕ → ℕ
or_default d n = if n == 0 then d else n

-- The constructor makes a valid screen of any object whose saved row lies on the new screen; on a
-- new object that row is 0.
pub construct-IsValid :
    (cols rows : ℕ) (s : Screen)
    → s.saved_y < or_default default_rows rows
    → IsValid (construct cols rows s)
unfolding construct setup_stops blank_line
construct-IsValid cols rows s h =
    let c = or_default default_cols cols in
    let r = or_default default_rows rows in
    let line = replicate c (cell def_attr space) in
    let c_pos : 0 < c = ground arith in
    let r_pos : 0 < r = ground arith in
    record {
      cols_pos = c_pos;
      full = length-replicate r line ∙ omega arith;
      wide =
          All-replicate (IsWide c) r line (omega (arith, length-replicate c (cell def_attr space)));
      row_in = r_pos;
      region_order = omega arith;
      region_in = omega (arith, r_pos);
      base_in = omega arith;
      disp_in = omega arith;
      saved_in = h;
    }

-- A new buffer has no gap.
pub construct-IsFull : (cols rows : ℕ) (s : Screen) → IsFull (construct cols rows s)
unfolding construct setup_stops blank_line
construct-IsFull cols rows s =
    All-replicate IsWhole (or_default default_rows rows) _
      (All-replicate IsCell (or_default default_cols cols) (cell def_attr space) tt)

-- The constructor on the screen itself, as `reset` runs it.
pub construct-Kept : (s : Screen) → IsValid s → Kept s (construct s.cols s.rows s)
construct-Kept s v = record {
  valid = construct-IsValid s.cols s.rows s (ground (arith, v.saved_in));
  range = λ r. unfold construct setup_stops in ground (arith, v.row_in);
  whole = λ u. construct-IsFull s.cols s.rows s;
  same_cols = unfold construct setup_stops in ground (arith, v.cols_pos);
  same_rows = unfold construct setup_stops in ground (arith, v.row_in);
}
