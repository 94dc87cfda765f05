-- ===== src/Screen/View/Scroll.antt =====
-- `scroll` on the rows of the screen.
use genie_tangle.Screen.View.Defs.{visible, region_up}
use genie_tangle.Screen.Scroll.{add_line, grow_base, scroll, drop_top}
use genie_tangle.Screen.Valid.{IsValid}
use genie_tangle.Screen.Valid.Scrolls.{grow_base-IsGrown}
use genie_tangle.Screen.Buffer.{update_range, Row, Screen, blank_line, scrollback}
use genie_tangle.Prelude.{
  false, ℕ, inr, List, arith, drop, insert_at_end, erase_at_zero, drop-erase_at, length, ◌≡◌,
  erase_at-insert_at, zero, ◌/◌, ◌∙◌, insert_at, inl, ap, refl, ◌<◌, length-drop, Bool-cases, true,
  sym, drop-drop, ◌==◌, ◌-◌, ◌+◌, slice_last, drop-insert_at, ◌≤◌, suc, erase_at,
}

drop_eq : {j k : ℕ} (xs : List Row) → j ≡ k → drop j xs ≡ drop k xs
drop_eq xs e = ap (λ (n : ℕ). drop n xs) e

-- The slice leaves the rows in place.
sliced_view :
    (b h r : ℕ) (xs : List Row)
    → length xs ≡ b + r
    → 0 < h
    → h ≤ b + 1
    → 0 < r
    → drop (h - 1) (slice_last (h + r - 1) xs) ≡ drop b xs
unfolding slice_last
sliced_view b h r xs n p q z =
    rw not_all (drop-drop (h - 1) (length xs - (h + r - 1)) xs ∙ drop_eq xs (omega arith))
  where
    not_all : (h + r - 1 == 0) ≡ false
    not_all = ground arith

grow_base-view :
    (s : Screen) → IsValid s → drop ((grow_base s).ybase - 1) (grow_base s).lines ≡ visible s
unfolding grow_base
grow_base-view s v = elim (Bool-cases (s.ybase + 1 == scrollback)) [
  | inl full ↦ rw full (
      sliced_view s.ybase ((s.ybase + 1) / 2) s.rows s.lines v.full (ground arith) (omega arith)
        (omega (arith, v.row_in)))
  | inr room ↦ rw room (drop_eq s.lines (omega arith))
]

-- The two ways to add a line are one.
pub add_line-lines :
    (t : Screen)
    → (add_line t).lines ≡ insert_at t.lines (t.ybase + t.scroll_bottom) (blank_line false t)
unfolding add_line
add_line-lines t = elim (Bool-cases (t.ybase + t.scroll_bottom == length t.lines)) [
  | inl e ↦
      let p : t.ybase + t.scroll_bottom ≡ length t.lines = ground arith in
      rw (e, p) (sym (insert_at_end t.lines (blank_line false t)))
  | inr e ↦ rw e
]

blank_line_eq : (s t : Screen) → t.cols ≡ s.cols → blank_line false t ≡ blank_line false s
unfolding blank_line
blank_line_eq s t e = rw e

update_range-visible : (y : ℕ) (s : Screen) → visible (update_range y s) ≡ visible s
unfolding update_range
update_range-visible y s = ground arith

-- After its first two steps `scroll` has the rows below the first, with the new line among them.
add_line-visible :
    (s : Screen)
    → IsValid s
    → let t = grow_base s in
      visible (add_line t) ≡ insert_at (drop t.ybase t.lines) s.scroll_bottom (blank_line false s)
unfolding add_line
add_line-visible s v =
    let t = grow_base s in
    let g = grow_base-IsGrown s v in
    rw (add_line-lines t, blank_line_eq s t g.cols_kept, g.bottom_kept)
      (drop-insert_at t.ybase t.lines s.scroll_bottom (blank_line false s)
        (omega (arith, g.one_short, g.rows_kept, v.region_in)))

-- The rows below the first, which `grow_base` leaves behind its new base.
grow_base-tail :
    (s : Screen) → IsValid s → drop (grow_base s).ybase (grow_base s).lines ≡ erase_at (visible s) 0
grow_base-tail s v =
    let t = grow_base s in
    let g = grow_base-IsGrown s v in
    drop_eq t.lines (omega (arith, g.base_pos))
    ∙ sym (drop-drop 1 (t.ybase - 1) t.lines)
    ∙ ap (drop 1) (grow_base-view s v)
    ∙ sym (erase_at_zero (visible s))

drop_top_none : (u : Screen) → u.scroll_top ≡ 0 → visible (drop_top u) ≡ visible u
unfolding drop_top
drop_top_none u z = let e : (u.scroll_top == 0) ≡ true = ground arith in rw e

drop_top_some :
    (u : Screen)
    → 0 < u.scroll_top
    → visible (drop_top u) ≡ erase_at (drop (u.ybase - 1) u.lines) u.scroll_top
unfolding drop_top
drop_top_some u h =
    let e : (u.scroll_top == 0) ≡ false = ground arith in
    rw e (drop-erase_at (u.ybase - 1) u.lines u.scroll_top)

pub add_line-top : (t : Screen) → (add_line t).scroll_top ≡ t.scroll_top
unfolding add_line
add_line-top t = refl

pub add_line-ybase : (t : Screen) → (add_line t).ybase ≡ t.ybase
unfolding add_line
add_line-ybase t = refl

-- With the region at the top of the screen, the first row goes to the scrollback.
scroll_from_top :
    (s : Screen)
    → IsValid s
    → s.scroll_top ≡ 0
    → visible (drop_top (add_line (grow_base s)))
      ≡ insert_at (erase_at (visible s) 0) s.scroll_bottom (blank_line false s)
scroll_from_top s v z =
    let t = grow_base s in
    let g = grow_base-IsGrown s v in
    drop_top_none (add_line t) (add_line-top t ∙ g.top_kept ∙ z)
    ∙ add_line-visible s v
    ∙ ap (λ (rows : List Row). insert_at rows s.scroll_bottom (blank_line false s))
        (grow_base-tail s v)

-- Before the row at the top of the region goes, the new line stands one row lower.
grown_lines :
    (s : Screen)
    → IsValid s
    → let u = add_line (grow_base s) in
      drop (u.ybase - 1) u.lines ≡ insert_at (visible s) (suc s.scroll_bottom) (blank_line false s)
grown_lines s v =
    let t = grow_base s in
    let g = grow_base-IsGrown s v in
    let e : t.ybase + s.scroll_bottom ≡ t.ybase - 1 + suc s.scroll_bottom =
      omega (arith, g.base_pos) in
    rw (add_line-ybase t, add_line-lines t, blank_line_eq s t g.cols_kept, g.bottom_kept, e)
      (drop-insert_at (t.ybase - 1) t.lines (suc s.scroll_bottom) (blank_line false s)
          (omega (arith, g.one_short, g.rows_kept, v.region_in, g.base_pos))
        ∙ ap (λ (rows : List Row). insert_at rows (suc s.scroll_bottom) (blank_line false s))
            (grow_base-view s v))

-- Below the top row, the first row of the region goes.
scroll_in_region :
    (s : Screen)
    → IsValid s
    → 0 < s.scroll_top
    → visible (drop_top (add_line (grow_base s)))
      ≡ region_up s.scroll_top s.scroll_bottom (blank_line false s) (visible s)
scroll_in_region s v h =
    let t = grow_base s in
    let g = grow_base-IsGrown s v in
    let top : (add_line t).scroll_top ≡ s.scroll_top = add_line-top t ∙ g.top_kept in
    drop_top_some (add_line t) (omega (arith, top))
    ∙ rw (top, grown_lines s v)
        (erase_at-insert_at (visible s) s.scroll_top s.scroll_bottom (blank_line false s)
          v.region_order
          (omega (arith, length-drop s.ybase s.lines, v.full, v.region_in, v.region_order)))

-- `scroll` on the rows of a valid screen: the row at the top of the scroll region goes, and a
-- default blank row comes in so that it stands at the bottom of the region; also where the
-- scrollback is full and is cut to half.
pub visible-scroll :
    (s : Screen)
    → IsValid s
    → visible (scroll s) ≡ region_up s.scroll_top s.scroll_bottom (blank_line false s) (visible s)
unfolding scroll
visible-scroll s v = update_range-visible _ _ ∙ update_range-visible _ _ ∙ cases s.scroll_top refl
  where
    cases :
        (top : ℕ)
        → s.scroll_top ≡ top
        → visible (drop_top (add_line (grow_base s)))
          ≡ region_up s.scroll_top s.scroll_bottom (blank_line false s) (visible s)
    cases zero e =
        scroll_from_top s v e
        ∙ ap (λ (top : ℕ). region_up top s.scroll_bottom (blank_line false s) (visible s)) (sym e)
    cases (suc k) e = scroll_in_region s v (omega (arith, e))
