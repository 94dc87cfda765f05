-- ===== src/Screen/View/History.antt =====
-- `scroll` on the scrollback.
use genie_tangle.Screen.Valid.Scrolls.{grow_base-IsGrown}
use genie_tangle.Screen.View.Scroll.{add_line-lines, add_line-ybase, add_line-top}
use genie_tangle.Screen.Buffer.{Row, Screen, scrollback, blank_line, update_range}
use genie_tangle.Screen.Scroll.{grow_base, scroll, drop_top, add_line}
use genie_tangle.Screen.View.Defs.{history, visible}
use genie_tangle.Prelude.{
  List, refl, if◌then◌else◌, take, slice_last, suc, ◌==◌, [], if◌then◌else◌, ◌≡◌, arith, zero, inl,
  inr, ℕ, ◌+◌, drop, ap, ◌-◌, ◌∷◌, ◌++◌, if◌then◌else◌, ◌/◌, ◌<◌, Bool-cases, take-suc,
  take-erase_at, ◌≤◌, take-insert_at, ◌∙◌, true, false, length,
}
use genie_tangle.Screen.Valid.{IsValid}

same_sum : (k b : ℕ) → suc k + b ≡ suc (k + b)
same_sum k b = omega arith

take-drop : (b k : ℕ) (xs : List Row) → take b (drop k xs) ≡ drop k (take (k + b) xs)
take-drop b zero xs = ap (λ (n : ℕ). take n xs) (omega arith)
take-drop zero (suc k) [] = rw (same_sum k zero) refl
take-drop (suc b) (suc k) [] = rw (same_sum k (suc b)) refl
take-drop b (suc k) (x ∷ xs) = rw (same_sum k b) (take-drop b k xs)

-- How many of the oldest lines go: half of the scrollback where it is full.
abbrev pub forgotten : Screen → ℕ
forgotten s = if s.ybase + 1 == scrollback then s.ybase + 1 - (s.ybase + 1) / 2 else 0

-- The lines of `grow_base` are the old ones without those that are forgotten.
grow_base-lines :
    (s : Screen)
    → IsValid s
    → ((grow_base s).lines ≡ drop (forgotten s) s.lines)
      × ((grow_base s).ybase + forgotten s ≡ s.ybase + 1)
unfolding grow_base slice_last
grow_base-lines s v = elim (Bool-cases (s.ybase + 1 == scrollback)) [
  | inl e ↦
      let size : length s.lines - ((s.ybase + 1) / 2 + s.rows - 1)
          ≡ s.ybase + 1 - (s.ybase + 1) / 2 =
        omega (arith, v.full, v.row_in) in
      let some' : ((s.ybase + 1) / 2 + s.rows - 1 == 0) ≡ false = ground (arith, v.row_in) in
      rw (e, some', size) (refl, omega arith)
  | inr e ↦ rw e (refl, omega arith)
]

update_range-history : (y : ℕ) (s : Screen) → history (update_range y s) ≡ history s
unfolding update_range
update_range-history y s = ground arith

scroll-history : (s : Screen) → history (scroll s) ≡ history (drop_top (add_line (grow_base s)))
unfolding scroll
scroll-history s = update_range-history _ _ ∙ update_range-history _ _

take_eq : {j k : ℕ} (xs : List Row) → j ≡ k → take j xs ≡ take k xs
take_eq xs e = ap (λ (n : ℕ). take n xs) e

-- The first lines of what `grow_base` leaves, in terms of the old lines.
grown_take :
    (s : Screen) (b c : ℕ)
    → IsValid s
    → forgotten s + b ≡ c
    → take b (grow_base s).lines ≡ drop (forgotten s) (take c s.lines)
grown_take s b c v e =
    ap (take b) (grow_base-lines s v).0
    ∙ take-drop b (forgotten s) s.lines
    ∙ ap (drop (forgotten s)) (take_eq s.lines e)

-- The new line goes in behind the scrollback.
added_take :
    (t : Screen) (b i : ℕ)
    → b + i ≡ t.ybase + t.scroll_bottom
    → b ≤ length t.lines
    → take b (add_line t).lines ≡ take b t.lines
added_take t b i e h =
    rw (add_line-lines t, ← e) (take-insert_at b t.lines i (blank_line false t) h)

kept_top : (u : Screen) → u.scroll_top ≡ 0 → history (drop_top u) ≡ history u
unfolding drop_top
kept_top u z = let e : (u.scroll_top == 0) ≡ true = ground arith in rw e refl

lost_top : (u : Screen) → 0 < u.scroll_top → history (drop_top u) ≡ take (u.ybase - 1) u.lines
unfolding drop_top
lost_top u h =
    let e : (u.scroll_top == 0) ≡ false = ground arith in
    rw e (take-erase_at (u.ybase - 1) u.lines u.scroll_top)

-- `scroll` on a valid screen with the scroll region at the top: the first row of the screen is
-- appended to the scrollback, and where the scrollback is full, the older half of it goes.
history-scroll_top :
    (s : Screen)
    → IsValid s
    → s.scroll_top ≡ 0
    → history (scroll s) ≡ drop (forgotten s) (history s ++ take 1 (visible s))
history-scroll_top s v z =
    let t = grow_base s in
    let g = grow_base-IsGrown s v in
    scroll-history s
    ∙ kept_top (add_line t) (add_line-top t ∙ g.top_kept ∙ z)
    ∙ rw (add_line-ybase t) (
        added_take t t.ybase t.scroll_bottom refl
          (omega (arith, g.one_short, g.rows_kept, v.row_in)))
    ∙ grown_take s t.ybase (suc s.ybase) v (omega (arith, (grow_base-lines s v).1))
    ∙ ap (drop (forgotten s)) (take-suc s.ybase s.lines)

-- `scroll` on a valid screen with the scroll region below the first row appends nothing to the
-- scrollback; where the scrollback is full, the older half of it goes all the same.
history-scroll_region :
    (s : Screen)
    → IsValid s
    → 0 < s.scroll_top
    → history (scroll s) ≡ drop (forgotten s) (history s)
history-scroll_region s v h =
    let t = grow_base s in
    let g = grow_base-IsGrown s v in
    let top : (add_line t).scroll_top ≡ s.scroll_top = add_line-top t ∙ g.top_kept in
    scroll-history s
    ∙ lost_top (add_line t) (omega (arith, top))
    ∙ rw (add_line-ybase t) (
        added_take t (t.ybase - 1) (suc t.scroll_bottom) (omega (arith, g.base_pos))
          (omega (arith, g.one_short, g.rows_kept, v.row_in)))
    ∙ grown_take s (t.ybase - 1) s.ybase v (omega (arith, (grow_base-lines s v).1, g.base_pos))
