-- ===== src/Screen/Valid/Scrolls.antt =====
-- Scrolling, and the insertion and deletion of lines, on a valid screen.
use genie_tangle.Screen.Scroll.{
  scroll_down_lines, scroll_up_lines, grow_base, add_line, index, scroll, scroll_down,
  reverse_index, line_feed, scroll_up, drop_top,
}
use genie_tangle.Prelude.{
  ℕ, zero, suc, ◌+◌, ◌≤◌, ◌<◌, true, arith, length-insert_at, length-erase_at, insert_at, erase_at,
  All-insert_at, All-erase_at, false, ◌≡◌, length, All, ◌∷◌, if-both, length-append, List, ltb, ◌-◌,
  [], length-slice_last, All-append, All-slice_last, ◌/◌,
}
use genie_tangle.Screen.Buffer.{
  Row, Screen, blank_line, scrollback, update_range, at_least_one, first,
}
use genie_tangle.Screen.Lines.{insert_lines_at, delete_lines_at, insert_lines, delete_lines}
use genie_tangle.Screen.Valid.Defs.{
  IsWide, IsValid, Kept, Kept-refl, Kept-trans, lines-Kept, blank_line-IsWide, IsFull,
  blank_line-IsWhole, IsWhole,
}

-- A line goes in, and a line behind or before it goes out.
module _ {s : Screen} (v : IsValid s) (line : Row) (w : IsWide s.cols line) (u : IsWhole line) where
  pub insert-erase-Kept :
      (i j : ℕ)
      → j ≤ s.ybase + s.rows
      → Kept s (record s { lines = erase_at (insert_at s.lines i line) j })
  insert-erase-Kept i j h =
      lines-Kept _ v
        (omega (
          arith,
          v.full,
          length-insert_at s.lines i line,
          length-erase_at (insert_at s.lines i line) j
              (omega (arith, v.full, length-insert_at s.lines i line)),
        ))
        (All-erase_at (IsWide s.cols) (insert_at s.lines i line) j
          (All-insert_at (IsWide s.cols) s.lines i line v.wide w))
        (λ g.
          All-erase_at IsWhole (insert_at s.lines i line) j
            (All-insert_at IsWhole s.lines i line g u))

  pub erase-insert-Kept :
      (i j : ℕ)
      → i < s.ybase + s.rows
      → Kept s (record s { lines = insert_at (erase_at s.lines i) j line })
  erase-insert-Kept i j h =
      lines-Kept _ v
        (omega (
          arith,
          v.full,
          length-insert_at (erase_at s.lines i) j line,
          length-erase_at s.lines i (omega (arith, v.full)),
        ))
        (All-insert_at (IsWide s.cols) (erase_at s.lines i) j line
          (All-erase_at (IsWide s.cols) s.lines i v.wide) w)
        (λ g.
          All-insert_at IsWhole (erase_at s.lines i) j line (All-erase_at IsWhole s.lines i g) u)

insert_lines_at-Kept : (n : ℕ) (s : Screen) → IsValid s → Kept s (insert_lines_at n s)
unfolding insert_lines_at
insert_lines_at-Kept zero s v = Kept-refl v
insert_lines_at-Kept (suc n) s v =
    let h =
      insert-erase-Kept v (blank_line true s) (blank_line-IsWide true s) (blank_line-IsWhole true s)
        (s.y + s.ybase) (s.ybase + s.scroll_bottom + 1) (omega (arith, v.region_in)) in
    Kept-trans h (insert_lines_at-Kept n _ h.valid)

delete_lines_at-Kept : (n : ℕ) (s : Screen) → IsValid s → Kept s (delete_lines_at n s)
unfolding delete_lines_at
delete_lines_at-Kept zero s v = Kept-refl v
delete_lines_at-Kept (suc n) s v =
    let h =
      insert-erase-Kept v (blank_line true s) (blank_line-IsWide true s) (blank_line-IsWhole true s)
        (s.ybase + s.scroll_bottom + 1) (s.y + s.ybase) (omega (arith, v.row_in)) in
    Kept-trans h (delete_lines_at-Kept n _ h.valid)

scroll_up_lines-Kept : (n : ℕ) (s : Screen) → IsValid s → Kept s (scroll_up_lines n s)
unfolding scroll_up_lines
scroll_up_lines-Kept zero s v = Kept-refl v
scroll_up_lines-Kept (suc n) s v =
    let h =
      erase-insert-Kept v (blank_line false s) (blank_line-IsWide false s)
        (blank_line-IsWhole false s) (s.ybase + s.scroll_top) (s.ybase + s.scroll_bottom)
        (omega (arith, v.region_in, v.region_order)) in
    Kept-trans h (scroll_up_lines-Kept n _ h.valid)

scroll_down_lines-Kept : (n : ℕ) (s : Screen) → IsValid s → Kept s (scroll_down_lines n s)
unfolding scroll_down_lines
scroll_down_lines-Kept zero s v = Kept-refl v
scroll_down_lines-Kept (suc n) s v =
    let h =
      erase-insert-Kept v (blank_line false s) (blank_line-IsWide false s)
        (blank_line-IsWhole false s) (s.ybase + s.scroll_bottom) (s.ybase + s.scroll_top)
        (omega (arith, v.region_in)) in
    Kept-trans h (scroll_down_lines-Kept n _ h.valid)

pub update_range-Kept : (y : ℕ) {s t : Screen} → y < s.rows → Kept s t → Kept s (update_range y t)
unfolding update_range
update_range-Kept y b h = ground arith

-- The range of a scroll, and that of lines that are inserted or deleted at the cursor.
region_range-Kept :
    {s t : Screen} → Kept s t → Kept s (update_range t.scroll_bottom (update_range t.scroll_top t))
region_range-Kept {s} {t} k =
    let b : t.scroll_bottom < s.rows = omega (arith, k.valid.region_in, k.same_rows) in
    update_range-Kept t.scroll_bottom b
      (update_range-Kept t.scroll_top (omega (arith, b, k.valid.region_order)) k)

cursor_range-Kept :
    {s t : Screen} → Kept s t → Kept s (update_range t.scroll_bottom (update_range t.y t))
cursor_range-Kept {s} {t} k =
    update_range-Kept t.scroll_bottom (omega (arith, k.valid.region_in, k.same_rows))
      (update_range-Kept t.y (omega (arith, k.valid.row_in, k.same_rows)) k)

-- What `scroll` has after its first step: one line less than a valid screen has.
pub record IsGrown (s t : Screen) : Type 0 where
  pub cols_kept : t.cols ≡ s.cols
  pub rows_kept : t.rows ≡ s.rows
  pub row_kept : t.y ≡ s.y
  pub top_kept : t.scroll_top ≡ s.scroll_top
  pub bottom_kept : t.scroll_bottom ≡ s.scroll_bottom
  pub saved_kept : t.saved_y ≡ s.saved_y
  pub start_kept : t.refresh_start ≡ s.refresh_start
  pub end_kept : t.refresh_end ≡ s.refresh_end
  pub base_pos : 0 < t.ybase
  pub base_in : t.ybase < scrollback
  pub one_short : suc (length t.lines) ≡ t.ybase + t.rows
  pub wide : All (IsWide s.cols) t.lines
  pub whole : IsFull s → IsFull t

pub grow_base-IsGrown : (s : Screen) → IsValid s → IsGrown s (grow_base s)
unfolding grow_base
grow_base-IsGrown s v =
    let n = (s.ybase + 1) / 2 + s.rows - 1 in
    ground (
      arith,
      length-slice_last n s.lines,
      All-slice_last (IsWide s.cols) n s.lines v.wide,
      All-slice_last IsWhole n s.lines,
    )

-- The second step makes the screen valid.
add_line-Kept :
    (s t : Screen) → IsValid s → IsGrown s t → Kept s (add_line t) × ((add_line t).ybase ≡ t.ybase)
unfolding add_line
add_line-Kept s t v g =
    let row = t.ybase + t.scroll_bottom in
    let line = blank_line false t in
    let w : IsWide s.cols line = rw (← g.cols_kept) (blank_line-IsWide false t) in
    ground (
      arith,
      length-append t.lines (line ∷ []),
      length-insert_at t.lines row line,
      All-append (IsWide s.cols) t.lines (line ∷ []) g.wide (w, tt),
      All-insert_at (IsWide s.cols) t.lines row line g.wide w,
      (λ (k : IsFull t). All-append IsWhole t.lines (line ∷ []) k (blank_line-IsWhole false t, tt)),
      (λ (k : IsFull t). All-insert_at IsWhole t.lines row line k (blank_line-IsWhole false t)),
    )

drop_top-Kept : (s : Screen) → IsValid s → 0 < s.ybase → Kept s (drop_top s)
unfolding drop_top
drop_top-Kept s v h =
    let i = s.ybase - 1 + s.scroll_top in
    ground (
      arith,
      length-erase_at s.lines i (omega arith),
      All-erase_at (IsWide s.cols) s.lines i v.wide,
      All-erase_at IsWhole s.lines i,
    )

scroll-Kept : (s : Screen) → IsValid s → Kept s (scroll s)
unfolding scroll
scroll-Kept s v =
    let g = grow_base-IsGrown s v in
    let (a, e) = add_line-Kept s (grow_base s) v g in
    let d = drop_top-Kept _ a.valid (rw e g.base_pos) in region_range-Kept (Kept-trans a d)

pub line_feed-Kept : (s : Screen) → IsValid s → Kept s (line_feed s)
unfolding line_feed
line_feed-Kept s v = ground (arith, scroll-Kept s v)

pub index-Kept : (s : Screen) → IsValid s → Kept s (index s)
unfolding index
index-Kept s v = line_feed-Kept s v

pub reverse_index-Kept : (s : Screen) → IsValid s → Kept s (reverse_index s)
unfolding reverse_index
reverse_index-Kept s v =
    let h =
      insert-erase-Kept v (blank_line true s) (blank_line-IsWide true s) (blank_line-IsWhole true s)
        (s.y + s.ybase) (s.ybase + s.scroll_bottom + 1) (omega (arith, v.region_in)) in
    if-both (Kept s) (ltb s.y (s.scroll_top + 1)) (region_range-Kept h) (ground arith)

pub scroll_up-Kept : (ps : List ℕ) (s : Screen) → IsValid s → Kept s (scroll_up ps s)
unfolding scroll_up
scroll_up-Kept ps s v = region_range-Kept (scroll_up_lines-Kept (at_least_one (first ps)) s v)

pub scroll_down-Kept : (ps : List ℕ) (s : Screen) → IsValid s → Kept s (scroll_down ps s)
unfolding scroll_down
scroll_down-Kept ps s v = region_range-Kept (scroll_down_lines-Kept (at_least_one (first ps)) s v)

pub insert_lines-Kept : (ps : List ℕ) (s : Screen) → IsValid s → Kept s (insert_lines ps s)
unfolding insert_lines
insert_lines-Kept ps s v = cursor_range-Kept (insert_lines_at-Kept (at_least_one (first ps)) s v)

pub delete_lines-Kept : (ps : List ℕ) (s : Screen) → IsValid s → Kept s (delete_lines ps s)
unfolding delete_lines
delete_lines-Kept ps s v = cursor_range-Kept (delete_lines_at-Kept (at_least_one (first ps)) s v)
