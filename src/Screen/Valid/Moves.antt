-- ===== src/Screen/Valid/Moves.antt =====
-- The handlers that move the cursor, save it, and set the scroll region and the tab stops.
use genie_tangle.Terminal.Attr.{char_attributes}
use genie_tangle.Screen.Cursor.{
  v_position_relative, restore_cursor, h_position_relative, cursor_up, cursor_preceding_line,
  second_or, cursor_next_line, set_scroll_region, cursor_down, cursor_backward, cursor_forward,
  save_cursor, cursor_pos, line_pos_absolute, cursor_char_absolute, hv_position, char_pos_absolute,
}
use genie_tangle.Screen.Buffer.{Screen, at_least_one, first}
use genie_tangle.Prelude.{arith, ◌∷◌, ◌<◌, List, suc, ℕ, Bool, zero, ◌≤◌, Ends}
use genie_tangle.Screen.Tabs.{
  next_stop, prev_stop, tab_set, backward_tabs, cursor_backward_tab, cursor_forward_tab,
  forward_tabs, tab_clear,
}
use genie_tangle.Screen.Valid.Defs.{Kept-trans, Kept-refl, IsValid, Kept}

-- A valid screen whose cursor stands elsewhere on the screen.
move-Kept : {s : Screen} (x y : ℕ) → IsValid s → y < s.rows → Kept s (record s { x = x; y = y })
move-Kept x y v h = ground arith

module _ (ps : List ℕ) (s : Screen) (v : IsValid s) where
  pub cursor_up-Kept : Kept s (cursor_up ps s)
  unfolding cursor_up
  cursor_up-Kept = move-Kept _ _ v (omega (arith, v.row_in))

  pub cursor_down-Kept : Kept s (cursor_down ps s)
  unfolding cursor_down
  cursor_down-Kept = move-Kept _ _ v (ground (arith, v.row_in))

  pub cursor_forward-Kept : Kept s (cursor_forward ps s)
  unfolding cursor_forward
  cursor_forward-Kept = move-Kept _ _ v v.row_in

  pub cursor_backward-Kept : Kept s (cursor_backward ps s)
  unfolding cursor_backward
  cursor_backward-Kept = move-Kept _ _ v v.row_in

  pub cursor_pos-Kept : Kept s (cursor_pos ps s)
  unfolding cursor_pos
  cursor_pos-Kept = move-Kept _ _ v (ground (arith, v.row_in))

  pub cursor_next_line-Kept : Kept s (cursor_next_line ps s)
  unfolding cursor_next_line
  cursor_next_line-Kept = move-Kept _ _ v (ground (arith, v.row_in))

  pub cursor_preceding_line-Kept : Kept s (cursor_preceding_line ps s)
  unfolding cursor_preceding_line
  cursor_preceding_line-Kept = move-Kept _ _ v (omega (arith, v.row_in))

  pub cursor_char_absolute-Kept : Kept s (cursor_char_absolute ps s)
  unfolding cursor_char_absolute
  cursor_char_absolute-Kept = move-Kept _ _ v v.row_in

  pub char_pos_absolute-Kept : Kept s (char_pos_absolute ps s)
  unfolding char_pos_absolute
  char_pos_absolute-Kept = move-Kept _ _ v v.row_in

  pub h_position_relative-Kept : Kept s (h_position_relative ps s)
  unfolding h_position_relative
  h_position_relative-Kept = move-Kept _ _ v v.row_in

  pub line_pos_absolute-Kept : Kept s (line_pos_absolute ps s)
  unfolding line_pos_absolute
  line_pos_absolute-Kept = move-Kept _ _ v (ground (arith, v.row_in))

  pub v_position_relative-Kept : Kept s (v_position_relative ps s)
  unfolding v_position_relative
  v_position_relative-Kept = move-Kept _ _ v (ground (arith, v.row_in))

  pub tab_clear-Kept : Kept s (tab_clear ps s)
  unfolding tab_clear
  tab_clear-Kept = ground arith

  pub char_attributes-Kept : Kept s (char_attributes ps s)
  unfolding char_attributes
  char_attributes-Kept = ground arith

-- With two parameters `HVPosition` ends on the screen.
pub hv_position-Kept :
    (p q : ℕ) (ps : List ℕ) (s : Screen) → IsValid s → Ends (Kept s) (hv_position (p ∷ q ∷ ps) s)
unfolding hv_position
hv_position-Kept p q ps s v = move-Kept _ _ v (ground (arith, v.row_in))

-- A scroll region that lies on the screen, top above bottom.
abbrev pub RegionFits : List ℕ → Screen → Type 0
RegionFits ps s = (at_least_one (first ps) ≤ second_or s.rows ps) × (second_or s.rows ps ≤ s.rows)

pub set_scroll_region-Kept :
    (ps : List ℕ) (s : Screen) → IsValid s → RegionFits ps s → Kept s (set_scroll_region ps s)
unfolding set_scroll_region at_least_one
set_scroll_region-Kept ps s v h = ground arith

module _ (s : Screen) (v : IsValid s) where
  pub save_cursor-Kept : Kept s (save_cursor s)
  unfolding save_cursor
  save_cursor-Kept = ground arith

  pub restore_cursor-Kept : Kept s (restore_cursor s)
  unfolding restore_cursor
  restore_cursor-Kept = move-Kept _ _ v v.saved_in

  pub set_tabs-Kept : (tabs : ℕ → Bool) → Kept s (record s { tabs = tabs })
  set_tabs-Kept tabs = ground arith

  pub tab_set-Kept : Kept s (tab_set s)
  unfolding tab_set
  tab_set-Kept = set_tabs-Kept _

forward_tabs-Kept : (n : ℕ) (s : Screen) → IsValid s → Kept s (forward_tabs n s)
unfolding forward_tabs
forward_tabs-Kept zero s v = Kept-refl v
forward_tabs-Kept (suc n) s v =
    let h = move-Kept (next_stop s s.x) s.y v v.row_in in
    Kept-trans h (forward_tabs-Kept n _ h.valid)

backward_tabs-Kept : (n : ℕ) (s : Screen) → IsValid s → Kept s (backward_tabs n s)
unfolding backward_tabs
backward_tabs-Kept zero s v = Kept-refl v
backward_tabs-Kept (suc n) s v =
    let h = move-Kept (prev_stop s s.x) s.y v v.row_in in
    Kept-trans h (backward_tabs-Kept n _ h.valid)

pub cursor_forward_tab-Kept :
    (ps : List ℕ) (s : Screen) → IsValid s → Kept s (cursor_forward_tab ps s)
unfolding cursor_forward_tab
cursor_forward_tab-Kept ps s v = forward_tabs-Kept (at_least_one (first ps)) s v

pub cursor_backward_tab-Kept :
    (ps : List ℕ) (s : Screen) → IsValid s → Kept s (cursor_backward_tab ps s)
unfolding cursor_backward_tab
cursor_backward_tab-Kept ps s v = backward_tabs-Kept (at_least_one (first ps)) s v
