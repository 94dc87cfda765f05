-- ===== src/Screen/Chars.antt =====
-- `insertChars`, `deleteChars`, `eraseChars`, `repeatPrecedingCharacter`, and the printing of a
-- character.
use genie_tangle.Prelude.{
  ℕ, zero, suc, ◌+◌, List, ltb, leb, if◌then◌else◌, get_or, push, pop, insert_at, erase_at, assign,
  Outcome, ok, ◌>>=◌,
}
use genie_tangle.Screen.Buffer.{
  Cell, hole, cell, Row, Screen, def_attr, space, blank, update_range, first, at_least_one,
  with_line,
}
use genie_tangle.Screen.Scroll.{line_feed}

-- `while (param-- && j < this.cols) { line.splice(j++, 0, ch); line.pop(); }`
unfoldable pub insert_cells : ℕ → ℕ → ℕ → Cell → Row → Row
insert_cells zero j cols ch line = line
insert_cells (suc n) j cols ch line =
    insert_cells n (j + 1) cols ch (if ltb j cols then pop (insert_at line j ch) else line)

-- `while (param-- && j < this.cols) line[j++] = ch;`
unfoldable pub erase_cells : ℕ → ℕ → ℕ → Cell → Row → Row
erase_cells zero j cols ch line = line
erase_cells (suc n) j cols ch line =
    erase_cells n (j + 1) cols ch (if ltb j cols then assign hole line j ch else line)

-- `while (param--) { line.splice(this.x, 1); line.push(ch); }`
unfoldable pub delete_cells : ℕ → ℕ → Cell → Row → Row
delete_cells zero x ch line = line
delete_cells (suc n) x ch line = delete_cells n x ch (push (erase_at line x) ch)

-- `while (param--) line[this.x++] = ch;`
unfoldable pub repeat_cells : ℕ → ℕ → Cell → Row → Row
repeat_cells zero x ch line = line
repeat_cells (suc n) x ch line = repeat_cells n (x + 1) ch (assign hole line x ch)

-- The line is read only inside the loop, which needs a column left of `cols`.
unfoldable pub insert_chars : List ℕ → Screen → Outcome Screen
insert_chars params s =
    if ltb s.x s.cols
    then with_line (s.y + s.ybase) (insert_cells (at_least_one (first params)) s.x s.cols (blank s))
        s
    else ok s

unfoldable pub delete_chars : List ℕ → Screen → Outcome Screen
delete_chars params s =
    with_line (s.y + s.ybase) (delete_cells (at_least_one (first params)) s.x (blank s)) s

unfoldable pub erase_chars : List ℕ → Screen → Outcome Screen
erase_chars params s =
    if ltb s.x s.cols
    then with_line (s.y + s.ybase) (erase_cells (at_least_one (first params)) s.x s.cols (blank s))
        s
    else ok s

-- `line[this.x - 1] || [this.defAttr, ' ']`
abbrev pub or_blank : Cell → Cell
or_blank hole = cell def_attr space
or_blank (cell a c) = cell a c

unfoldable pub preceding : ℕ → Row → Cell
preceding zero line = cell def_attr space
preceding (suc k) line = or_blank (get_or line k hole)

unfoldable pub repeat_preceding_character : List ℕ → Screen → Outcome Screen
repeat_preceding_character params s = do
  let n = at_least_one (first params)
  s' ← with_line (s.ybase + s.y) (λ line. repeat_cells n s.x (preceding s.x line) line) s
  ok (record s' { x = s.x + n })

-- The wrap before a character that would stand right of the last column.
unfoldable pub wrap : Screen → Screen
wrap s = if leb s.cols s.x then line_feed (record s { x = 0 }) else s

-- The `default` case of the state `normal`, for a character that is translated already.
unfoldable pub print : ℕ → Screen → Outcome Screen
print ch s = do
  let t = wrap s
  u ← with_line (t.y + t.ybase) (λ line. assign hole line t.x (cell t.cur_attr ch)) t
  ok (update_range t.y (record u { x = t.x + 1 }))
