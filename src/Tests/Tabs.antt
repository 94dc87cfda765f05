-- ===== src/Tests/Tabs.antt =====
-- The theorems on the tabs of a window, at three tabs.

use genie_tangle.Windows.{destroy_tab, Window}
use genie_tangle.Prelude.{refl, some, arith, ◌∷◌, [], ◌≡◌}
use genie_tangle.Windows.Closing.{HasFocus, destroy_tab-HasFocus}
use genie_tangle.Windows.Focus.{IsFocusedAt}

-- The second of three tabs has the focus.
abbrev three : Window
three = record { tabs = 5 ∷ 7 ∷ 9 ∷ []; focused = some 7 }

three-IsFocusedAt : IsFocusedAt 1 three
three-IsFocusedAt = record {
  distinct = ((refl, (refl, tt)), ((refl, tt), (tt, tt)));
  inside = omega arith;
  focus = refl;
}

destroy_tab-HasFocus_example :
    ((destroy_tab 7 three).tabs ≡ 5 ∷ 9 ∷ []) × HasFocus (destroy_tab 7 three)
destroy_tab-HasFocus_example = destroy_tab-HasFocus 7 1 three three-IsFocusedAt
