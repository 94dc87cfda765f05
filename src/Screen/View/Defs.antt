-- ===== src/Screen/View/Defs.antt =====
-- What the user sees: the rows of the screen, and the lines scrolled off its top; and what a terminal
-- promises to do to the rows.
use genie_tangle.Screen.Buffer.{Row, Screen}
use genie_tangle.Prelude.{ℕ, zero, List, insert_at, drop, take, suc, erase_at}

-- The lines of the scrollback, oldest first.
abbrev pub history : Screen → List Row
history s = take s.ybase s.lines

-- The rows of the screen, from the top.
abbrev pub visible : Screen → List Row
visible s = drop s.ybase s.lines

-- The row at the top of the scroll region goes, and a row comes in at its bottom.
abbrev pub region_up : ℕ → ℕ → Row → List Row → List Row
region_up top bottom line rows = insert_at (erase_at rows top) bottom line

-- A row comes in at `y`, and the row that leaves the region at its bottom goes.
abbrev pub rows_down_once : ℕ → ℕ → Row → List Row → List Row
rows_down_once y bottom line rows = erase_at (insert_at rows y line) (suc bottom)

abbrev pub repeated {ℓ} : {A : Type ℓ} → ℕ → (A → A) → A → A
repeated zero f a = a
repeated (suc n) f a = repeated n f (f a)

-- The row at `y` goes, and a row comes in at the bottom of the region.
abbrev pub rows_up_once : ℕ → ℕ → Row → List Row → List Row
rows_up_once y bottom line rows = erase_at (insert_at rows (suc bottom) line) y

-- The row at the bottom of the region goes, and a row comes in at its top.
abbrev pub region_down : ℕ → ℕ → Row → List Row → List Row
region_down top bottom line rows = insert_at (erase_at rows bottom) top line
