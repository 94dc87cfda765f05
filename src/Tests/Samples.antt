-- ===== src/Tests/Samples.antt =====
-- A small screen and a small terminal, on which the theorems are applied.
use genie_tangle.Terminal.Valid.{IsSound}
use genie_tangle.Screen.{cell, Screen, Row, def_attr}
use genie_tangle.Screen.Valid.{IsValid}
use genie_tangle.Terminal.{Terminal, blank_terminal}
use genie_tangle.Prelude.{arith, ◌∷◌, refl, ℕ, ◌+◌, []}
use genie_tangle.Screen.Tabs.{no_stops}

-- The line `abc` in the default attributes, with other codes.
abbrev line_of : ℕ → Row
line_of c = cell def_attr c ∷ cell def_attr (c + 1) ∷ cell def_attr (c + 2) ∷ []

-- Three columns, three rows, and one line of scrollback; the cursor stands in the middle.
abbrev pub sample : Screen
sample = record {
  cols = 3;
  rows = 3;
  ybase = 1;
  ydisp = 1;
  x = 1;
  y = 1;
  scroll_top = 1;
  scroll_bottom = 2;
  cur_attr = def_attr;
  lines = line_of b'a' ∷ line_of b'd' ∷ line_of b'g' ∷ line_of b'j' ∷ [];
  tabs = no_stops;
  refresh_start = 0;
  refresh_end = 0;
  saved_x = 0;
  saved_y = 2;
}

pub sample-IsValid : IsValid sample
sample-IsValid = record {
  cols_pos = omega arith;
  full = refl;
  wide = (omega arith, (omega arith, (omega arith, (omega arith, tt))));
  row_in = omega arith;
  region_order = omega arith;
  region_in = omega arith;
  base_in = omega arith;
  disp_in = omega arith;
  saved_in = omega arith;
}

abbrev pub sample_terminal : Terminal
sample_terminal = record blank_terminal { scr = sample }

pub sample_terminal-IsSound : IsSound sample_terminal
sample_terminal-IsSound = record {
  screen = sample-IsValid;
  aside = tt;
  filled = (
    (tt, (tt, (tt, tt))),
    ((tt, (tt, (tt, tt))), ((tt, (tt, (tt, tt))), ((tt, (tt, (tt, tt))), tt))),
  );
  calm = refl;
}
