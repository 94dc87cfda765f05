-- ===== src/Screen/Valid/Lasting.antt =====
-- The loops over the cells of a line (static/term.js): they leave a line as wide, and make no gap.

use mathlib.Core.Option.{some-injective}
use genie_tangle.Screen.Valid.Defs.{IsWide, IsCell, Lasts}
use genie_tangle.Screen.Erase.{fill_right, fill_left}
use genie_tangle.Screen.Buffer.{Row, cell, hole, Cell}
use genie_tangle.Prelude.{
  ◌+◌, insert_at, length-le-erase_at, length-insert_at, erase_at, length-append, if-both,
  length-pop, ◌≤◌, suc, length-assign, zero, [], ltb, ◌==◌, length, ℕ, arith, ◌∷◌, ◌<◌, All-from,
  inr, ltb→lt, if◌then◌else◌, All-insert_at, All-erase_at, assign, inl, ◌∙◌, get_elem?-get_or,
  subst, sym, get_or, if◌then◌else◌, if◌then◌else◌, pop, All-append, get_or-assign,
  length-assign_past, length-assign_within, Bool-cases, push, All-get_elem?, All-assign, All-pop,
}
use genie_tangle.Screen.Chars.{
  insert_cells, preceding, delete_cells, erase_cells, repeat_cells, or_blank,
}

-- An assignment that leaves no place between.
pub assign-Lasts :
    (c : ℕ) (line : Row) (i : ℕ) (v : Cell)
    → IsCell v
    → i ≤ length line
    → IsWide c line
    → Lasts c line (assign hole line i v)
assign-Lasts c line i v p h w =
    (omega (arith, length-assign hole line i v), λ u. All-assign IsCell hole line i v h u p)

pub fill_right-Lasts :
    (c n x : ℕ) (ch : Cell) (line : Row)
    → IsCell ch
    → x + n ≤ c
    → IsWide c line
    → Lasts c line (fill_right n x ch line)
unfolding fill_right
fill_right-Lasts c zero x ch line p h w = (w, λ u. u)
fill_right-Lasts c (suc n) x ch line p h w =
    let (a, u) = assign-Lasts c line x ch p (omega (arith, h, w)) w in
    let (b, v) = fill_right-Lasts c n (x + 1) ch (assign hole line x ch) p (omega (arith, h)) a in
    (b, λ k. v (u k))

-- The cells from the column `x` on.
abbrev FullFrom : ℕ → Row → Type 0
FullFrom x line = (k : ℕ) → x ≤ k → k < length line → IsCell (get_or line k hole)

fill_left-FullFrom :
    (x : ℕ) (ch : Cell) (line : Row)
    → IsCell ch
    → FullFrom x line
    → FullFrom 0 (fill_left x ch line)
unfolding fill_left
fill_left-FullFrom zero ch line p h = h
fill_left-FullFrom (suc x) ch line p h = fill_left-FullFrom x ch (assign hole line x ch) p (λ k a b.
    elim (Bool-cases (k == x)) [
      | inl e ↦ rw (get_or-assign hole line x k ch, e) p
      | inr e ↦
          rw (get_or-assign hole line x k ch, e)
            (h k (ground arith) (within x k ch line b (ground arith)))
    ])
  where
    within :
        (x k : ℕ) (ch : Cell) (line : Row)
        → k < length (assign hole line x ch)
        → x < k
        → k < length line
    within x k ch line b l = elim (Bool-cases (ltb x (length line))) [
      | inl e ↦ omega (arith, b, length-assign_within hole line x ch (ltb→lt x (length line) e))
      | inr e ↦
          let past : length line ≤ x = ground arith in
          absurd (omega (arith, b, l, length-assign_past hole line x ch past))
    ]

fill_left-IsWide :
    (c x : ℕ) (ch : Cell) (line : Row) → IsWide c line → IsWide c (fill_left x ch line)
unfolding fill_left
fill_left-IsWide c zero ch line w = w
fill_left-IsWide c (suc x) ch line w =
    fill_left-IsWide c x ch (assign hole line x ch) (omega (arith, w, length-assign hole line x ch))

pub fill_left-Lasts :
    (c x : ℕ) (ch : Cell) (line : Row)
    → IsCell ch
    → IsWide c line
    → Lasts c line (fill_left x ch line)
fill_left-Lasts c x ch line p w = (
  fill_left-IsWide c x ch line w,
  λ u.
      let full =
        fill_left-FullFrom x ch line p
          (λ k a b. All-get_elem? IsCell line k u (get_elem?-get_or hole line k b)) in
      All-from IsCell (fill_left x ch line) (λ i v h e.
        subst IsCell
          (some-injective _ _ (sym (get_elem?-get_or hole (fill_left x ch line) i h) ∙ e))
          (full i (omega arith) h)),
)

pub insert_cells-Lasts :
    (c n j cols : ℕ) (ch : Cell) (line : Row)
    → IsCell ch
    → IsWide c line
    → Lasts c line (insert_cells n j cols ch line)
unfolding insert_cells
insert_cells-Lasts c zero j cols ch line p w = (w, λ u. u)
insert_cells-Lasts c (suc n) j cols ch line p w =
    let next = if ltb j cols then pop (insert_at line j ch) else line in
    let once : Lasts c line next =
      if-both (Lasts c line) (ltb j cols)
        (
          omega (arith, length-pop (insert_at line j ch), length-insert_at line j ch),
          λ u. All-pop IsCell (insert_at line j ch) (All-insert_at IsCell line j ch u p),
        )
        (w, λ u. u) in
    let (b, v) = insert_cells-Lasts c n (j + 1) cols ch next p once.0 in (b, λ k. v (once.1 k))

pub erase_cells-Lasts :
    (c n j cols : ℕ) (ch : Cell) (line : Row)
    → IsCell ch
    → cols ≤ c
    → IsWide c line
    → Lasts c line (erase_cells n j cols ch line)
unfolding erase_cells
erase_cells-Lasts c zero j cols ch line p h w = (w, λ u. u)
erase_cells-Lasts c (suc n) j cols ch line p h w =
    let next = if ltb j cols then assign hole line j ch else line in
    let once : Lasts c line next = elim (Bool-cases (ltb j cols)) [
      | inl e ↦ rw e (assign-Lasts c line j ch p (ground (arith, h, w)) w)
      | inr e ↦ rw e (w, λ u. u)
    ] in
    let (b, v) = erase_cells-Lasts c n (j + 1) cols ch next p h once.0 in (b, λ k. v (once.1 k))

pub delete_cells-Lasts :
    (c n x : ℕ) (ch : Cell) (line : Row)
    → IsCell ch
    → IsWide c line
    → Lasts c line (delete_cells n x ch line)
unfolding delete_cells
delete_cells-Lasts c zero x ch line p w = (w, λ u. u)
delete_cells-Lasts c (suc n) x ch line p w =
    let next = push (erase_at line x) ch in
    let a : IsWide c next =
      omega (arith, w, length-append (erase_at line x) (ch ∷ []), length-le-erase_at line x) in
    let (b, v) = delete_cells-Lasts c n x ch next p a in
    (
      b,
      λ u. v (All-append IsCell (erase_at line x) (ch ∷ []) (All-erase_at IsCell line x u) (p, tt)),
    )

pub repeat_cells-Lasts :
    (c n x : ℕ) (ch : Cell) (line : Row)
    → IsCell ch
    → x ≤ length line
    → IsWide c line
    → Lasts c line (repeat_cells n x ch line)
unfolding repeat_cells
repeat_cells-Lasts c zero x ch line p h w = (w, λ u. u)
repeat_cells-Lasts c (suc n) x ch line p h w =
    let (a, u) = assign-Lasts c line x ch p h w in
    let (b, v) =
      repeat_cells-Lasts c n (x + 1) ch (assign hole line x ch) p
        (omega (arith, length-assign hole line x ch)) a in
    (b, λ k. v (u k))

pub preceding-IsCell : (x : ℕ) (line : Row) → IsCell (preceding x line)
unfolding preceding
preceding-IsCell zero line = tt
preceding-IsCell (suc k) line = there (get_or line k hole)
  where
    there : (c : Cell) → IsCell (or_blank c)
    there hole = tt
    there (cell a c) = tt
