-- ===== src/Screen/Valid/Rows.antt =====
-- Erasing, inserting, deleting and repeating characters, and printing, on a valid screen.
use genie_tangle.Screen.Valid.Lasting.{
  erase_cells-Lasts, fill_right-Lasts, assign-Lasts, preceding-IsCell, insert_cells-Lasts,
  repeat_cells-Lasts, fill_left-Lasts, delete_cells-Lasts,
}
use genie_tangle.Screen.Scroll.{drop_top, scroll, line_feed, grow_base, add_line}
use genie_tangle.Screen.Valid.Scrolls.{update_range-Kept, line_feed-Kept}
use genie_tangle.Screen.Valid.Defs.{Kept, IsValid, with_line-Kept, Kept-refl, Kept-trans}
use genie_tangle.Screen.Erase.{
  erase_line, erase_above, erase_in_display, erase_in_line, erase_below, erase_left, erase_right,
}
use genie_tangle.Screen.Buffer.{update_range, cell, blank, Screen, at_least_one, with_line, first}
use genie_tangle.Prelude.{
  ◌+◌, Ends-map, ok, List, ◌-◌, Ends-bind, if-both, Ends, ◌≤◌, suc, Outcome, zero, ltb, ◌==◌,
  length, ◌>>=◌, ℕ, arith, leb, ◌<◌, inr, inl, Bool-cases,
}
use genie_tangle.Screen.Chars.{
  repeat_preceding_character, print, preceding, erase_chars, delete_chars, wrap, insert_chars,
}

-- A row of the screen is a line of the buffer.
row_exists : {s : Screen} → IsValid s → (y : ℕ) → y < s.rows → s.ybase + y < length s.lines
row_exists v y h = omega (arith, v.full)

cursor_row_exists : {s : Screen} → IsValid s → s.y + s.ybase < length s.lines
cursor_row_exists v = omega (arith, v.full, v.row_in)

-- A result of the size of `s`, after the range to repaint has grown.
update_range-Ends :
    (y : ℕ) (s : Screen) (m : Outcome Screen)
    → y < s.rows
    → Ends (Kept s) m
    → Ends (Kept s) (m >>= λ t. ok (update_range y t))
update_range-Ends y s m b h = Ends-bind (Kept s) (Kept s) m _ h (λ t k. update_range-Kept y b k)

erase_right-Kept :
    (x y : ℕ) (s : Screen) → IsValid s → y < s.rows → Ends (Kept s) (erase_right x y s)
unfolding erase_right
erase_right-Kept x y s v h = update_range-Ends y s _ h (elim (Bool-cases (ltb x s.cols)) [
  | inl e ↦ rw e (
      with_line-Kept (s.ybase + y) _ s v (row_exists v y h)
        (λ line. fill_right-Lasts s.cols (s.cols - x) x (blank s) line tt (ground arith)))
  | inr e ↦ rw e (Kept-refl v)
])

erase_left-Kept : (x y : ℕ) (s : Screen) → IsValid s → y < s.rows → Ends (Kept s) (erase_left x y s)
unfolding erase_left
erase_left-Kept x y s v h = update_range-Ends y s _ h (
    with_line-Kept (s.ybase + y) _ s v (row_exists v y h)
      (λ line. fill_left-Lasts s.cols (x + 1) (blank s) line tt))

erase_line-Kept : (y : ℕ) (s : Screen) → IsValid s → y < s.rows → Ends (Kept s) (erase_line y s)
unfolding erase_line
erase_line-Kept y s v h = erase_right-Kept 0 y s v h

-- The second of two steps starts on a valid screen of the same size.
and_then-Kept :
    {s : Screen} (m : Outcome Screen) (f : Screen → Outcome Screen)
    → Ends (Kept s) m
    → ((t : Screen) → Kept s t → Ends (Kept t) (f t))
    → Ends (Kept s) (m >>= f)
and_then-Kept {s} m f h k =
    Ends-bind (Kept s) (Kept s) m f h
      (λ t a. Ends-map (Kept t) (Kept s) (f t) (k t a) (λ u b. Kept-trans a b))

erase_below-Kept :
    (n j : ℕ) (s : Screen) → IsValid s → j + n ≤ s.rows → Ends (Kept s) (erase_below n j s)
unfolding erase_below
erase_below-Kept zero j s v h = Kept-refl v
erase_below-Kept (suc n) j s v h =
    and_then-Kept (erase_line j s) (erase_below n (j + 1)) (erase_line-Kept j s v (omega arith))
      (λ t a. erase_below-Kept n (j + 1) t a.valid (omega (arith, a.same_rows)))

erase_above-Kept : (j : ℕ) (s : Screen) → IsValid s → j ≤ s.rows → Ends (Kept s) (erase_above j s)
unfolding erase_above
erase_above-Kept zero s v h = Kept-refl v
erase_above-Kept (suc j) s v h =
    and_then-Kept (erase_line j s) (erase_above j) (erase_line-Kept j s v (omega arith))
      (λ t a. erase_above-Kept j t a.valid (omega (arith, a.same_rows)))

pub erase_in_display-Kept :
    (ps : List ℕ) (s : Screen) → IsValid s → Ends (Kept s) (erase_in_display ps s)
unfolding erase_in_display
erase_in_display-Kept ps s v =
    if-both P (first ps == 0)
      (and_then-Kept (erase_right s.x s.y s) _ (erase_right-Kept s.x s.y s v v.row_in)
        (λ t a. erase_below-Kept _ _ t a.valid (omega (arith, a.same_rows, v.row_in))))
      (if-both P (first ps == 1)
        (and_then-Kept (erase_left s.x s.y s) _ (erase_left-Kept s.x s.y s v v.row_in)
          (λ t a. erase_above-Kept s.y t a.valid (omega (arith, a.same_rows, v.row_in))))
        (if-both P (first ps == 2) (erase_above-Kept s.rows s v (omega arith)) (Kept-refl v)))
  where
    P : Outcome Screen → Type 0
    P = Ends (Kept s)

pub erase_in_line-Kept : (ps : List ℕ) (s : Screen) → IsValid s → Ends (Kept s) (erase_in_line ps s)
unfolding erase_in_line
erase_in_line-Kept ps s v = if-both P (first ps == 0) (erase_right-Kept s.x s.y s v v.row_in) (
    if-both P (first ps == 1) (erase_left-Kept s.x s.y s v v.row_in)
      (if-both P (first ps == 2) (erase_line-Kept s.y s v v.row_in) (Kept-refl v)))
  where
    P : Outcome Screen → Type 0
    P = Ends (Kept s)

pub insert_chars-Kept : (ps : List ℕ) (s : Screen) → IsValid s → Ends (Kept s) (insert_chars ps s)
unfolding insert_chars
insert_chars-Kept ps s v =
    if-both (Ends (Kept s)) (ltb s.x s.cols)
      (with_line-Kept (s.y + s.ybase) _ s v (cursor_row_exists v)
        (λ line. insert_cells-Lasts s.cols (at_least_one (first ps)) s.x s.cols (blank s) line tt))
      (Kept-refl v)

pub delete_chars-Kept : (ps : List ℕ) (s : Screen) → IsValid s → Ends (Kept s) (delete_chars ps s)
unfolding delete_chars
delete_chars-Kept ps s v =
    with_line-Kept (s.y + s.ybase) _ s v (cursor_row_exists v)
      (λ line. delete_cells-Lasts s.cols (at_least_one (first ps)) s.x (blank s) line tt)

pub erase_chars-Kept : (ps : List ℕ) (s : Screen) → IsValid s → Ends (Kept s) (erase_chars ps s)
unfolding erase_chars
erase_chars-Kept ps s v =
    if-both (Ends (Kept s)) (ltb s.x s.cols)
      (with_line-Kept (s.y + s.ybase) _ s v (cursor_row_exists v) (λ line.
        erase_cells-Lasts s.cols (at_least_one (first ps)) s.x s.cols (blank s) line tt
          (omega arith)))
      (Kept-refl v)

-- The column of the cursor is no part of the invariant.
pub set_x-Kept : (x : ℕ) {s t : Screen} → Kept s t → Kept s (record t { x = x })
set_x-Kept x h = ground arith

pub repeat_preceding_character-Kept :
    (ps : List ℕ) (s : Screen)
    → IsValid s
    → s.x ≤ s.cols
    → Ends (Kept s) (repeat_preceding_character ps s)
unfolding repeat_preceding_character
repeat_preceding_character-Kept ps s v h =
    Ends-bind (Kept s) (Kept s) (with_line (s.ybase + s.y) _ s) _
      (with_line-Kept (s.ybase + s.y) _ s v (row_exists v s.y v.row_in) (λ line w.
        repeat_cells-Lasts s.cols (at_least_one (first ps)) s.x (preceding s.x line) line
          (preceding-IsCell s.x line) (omega (arith, h, w)) w))
      (λ t k. set_x-Kept _ k)

pub wrap-Kept : (s : Screen) → IsValid s → Kept s (wrap s)
unfolding wrap
wrap-Kept s v =
    let h = set_x-Kept 0 (Kept-refl v) in
    if-both (Kept s) (leb s.cols s.x) (Kept-trans h (line_feed-Kept _ h.valid)) (Kept-refl v)

line_feed-x : (s : Screen) → s.x < s.cols → (line_feed s).x < (line_feed s).cols
unfolding line_feed scroll grow_base add_line drop_top update_range
line_feed-x s h = ground arith

-- After the wrap that is due the cursor stands left of the right edge.
pub wrap-x : (s : Screen) → IsValid s → (wrap s).x < (wrap s).cols
unfolding wrap
wrap-x s v = elim (Bool-cases (leb s.cols s.x)) [
  | inl e ↦ rw e (line_feed-x (record s { x = 0 }) v.cols_pos)
  | inr e ↦ rw e (ground arith)
]

pub print-Kept : (ch : ℕ) (s : Screen) → IsValid s → Ends (Kept s) (print ch s)
unfolding print
print-Kept ch s v =
    let t = wrap s in
    let h = wrap-Kept s v in
    Ends-bind (Kept t) (Kept s) (with_line (t.y + t.ybase) _ t) _
      (with_line-Kept (t.y + t.ybase) _ t h.valid (cursor_row_exists h.valid) (λ line w.
        assign-Lasts t.cols line t.x (cell t.cur_attr ch) tt (omega (arith, wrap-x s v, w)) w))
      (λ u k.
        update_range-Kept t.y (omega (arith, h.valid.row_in, h.same_rows))
          (set_x-Kept (t.x + 1) (Kept-trans h k)))
