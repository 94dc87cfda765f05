-- ===== src/Screen/Erase.antt =====
-- `eraseRight`, `eraseLeft`, `eraseLine`, `eraseInDisplay` and `eraseInLine`.
use genie_tangle.Prelude.{
  ℕ, zero, suc, ◌+◌, ◌-◌, List, ltb, ◌==◌, if◌then◌else◌, assign, Outcome, ok, ◌>>=◌,
}
use genie_tangle.Screen.Buffer.{Cell, hole, Row, Screen, blank, update_range, first, with_line}

-- `for (; x < this.cols; x++) line[x] = ch;` in the rounds that it makes
unfoldable pub fill_right : ℕ → ℕ → Cell → Row → Row
fill_right zero x ch line = line
fill_right (suc n) x ch line = fill_right n (x + 1) ch (assign hole line x ch)

-- `while (x--) line[x] = ch;`
unfoldable pub fill_left : ℕ → Cell → Row → Row
fill_left zero ch line = line
fill_left (suc x) ch line = fill_left x ch (assign hole line x ch)

-- The line is not touched, and may be missing, where the loop makes no round.
unfoldable pub erase_right : ℕ → ℕ → Screen → Outcome Screen
erase_right x y s = do
  s' ←
      (if ltb x s.cols
        then with_line (s.ybase + y) (fill_right (s.cols - x) x (blank s)) s
        else ok s)
  ok (update_range y s')

unfoldable pub erase_left : ℕ → ℕ → Screen → Outcome Screen
erase_left x y s = do
  s' ← with_line (s.ybase + y) (fill_left (x + 1) (blank s)) s
  ok (update_range y s')

unfoldable pub erase_line : ℕ → Screen → Outcome Screen
erase_line y s = erase_right 0 y s

-- `for (; j < this.rows; j++) this.eraseLine(j);`
unfoldable pub erase_below : ℕ → ℕ → Screen → Outcome Screen
erase_below zero j s = ok s
erase_below (suc n) j s = erase_line j s >>= erase_below n (j + 1)

-- `while (j--) this.eraseLine(j);`
unfoldable pub erase_above : ℕ → Screen → Outcome Screen
erase_above zero s = ok s
erase_above (suc j) s = erase_line j s >>= erase_above j

unfoldable pub erase_in_display : List ℕ → Screen → Outcome Screen
erase_in_display params s =
    if first params == 0
    then erase_right s.x s.y s >>= erase_below (s.rows - (s.y + 1)) (s.y + 1)
    else if first params == 1
    then erase_left s.x s.y s >>= erase_above s.y
    else if first params == 2
    then erase_above s.rows s
    else ok s

unfoldable pub erase_in_line : List ℕ → Screen → Outcome Screen
erase_in_line params s =
    if first params == 0
    then erase_right s.x s.y s
    else if first params == 1
    then erase_left s.x s.y s
    else if first params == 2
    then erase_line s.y s
    else ok s
