-- ===== src/Screen/Tabs.antt =====
-- Tab stops: `setupStops`, `prevStop`, `nextStop`, `tabSet`, `tabClear` and the tabulations.
use genie_tangle.Prelude.{
  ℕ, zero, suc, ◌+◌, ◌-◌, ◌/◌, Bool, true, false, ◌||◌, List, Option, none, some, leb, ◌==◌,
  if◌then◌else◌,
}
use genie_tangle.Screen.Buffer.{Screen, first, at_least_one}

abbrev pub no_stops : ℕ → Bool
no_stops k = false

abbrev pub set_stop : ℕ → Bool → (ℕ → Bool) → ℕ → Bool
set_stop i v tabs k = if k == i then v else tabs k

-- `return x >= this.cols ? this.cols - 1 : x < 0 ? 0 : x`; the loops below end at 0 or above
abbrev pub clamp_stop : ℕ → ℕ → ℕ
clamp_stop cols x = if leb cols x then cols - 1 else x

-- `while (!this.tabs[--x] && x > 0);` from `x`
unfoldable pub prev_stop_from : (ℕ → Bool) → ℕ → ℕ
prev_stop_from tabs zero = 0
prev_stop_from tabs (suc k) = if tabs k then k else prev_stop_from tabs k

unfoldable pub prev_stop : Screen → ℕ → ℕ
prev_stop s x = clamp_stop s.cols (prev_stop_from s.tabs x)

-- `while (!this.tabs[++x] && x < this.cols);` from `x`, with the rounds left
unfoldable pub next_stop_from : ℕ → ℕ → (ℕ → Bool) → ℕ → ℕ
next_stop_from zero cols tabs x = x
next_stop_from (suc n) cols tabs x =
    let rest = next_stop_from n cols tabs (x + 1) in
    if tabs (x + 1) || leb cols (x + 1) then x + 1 else rest

unfoldable pub next_stop : Screen → ℕ → ℕ
next_stop s x = clamp_stop s.cols (next_stop_from (suc (s.cols - x)) s.cols s.tabs x)

-- `for (; i < this.cols; i += 8) this.tabs[i] = true;` in as many rounds as it makes
unfoldable pub mark_stops : ℕ → ℕ → (ℕ → Bool) → ℕ → Bool
mark_stops zero i tabs = tabs
mark_stops (suc n) i tabs = mark_stops n (i + 8) (set_stop i true tabs)

abbrev pub stop_rounds : ℕ → ℕ → ℕ
stop_rounds cols i = (cols + 7 - i) / 8

-- `setupStops()` and `setupStops(i)`
unfoldable pub setup_stops : Option ℕ → Screen → Screen
setup_stops none s = record s { tabs = mark_stops (stop_rounds s.cols 0) 0 no_stops }
setup_stops (some i) s =
    let start = if s.tabs i then i else prev_stop s i in
    record s { tabs = mark_stops (stop_rounds s.cols start) start s.tabs }

unfoldable pub tab_set : Screen → Screen
tab_set s = record s { tabs = set_stop s.x true s.tabs }

unfoldable pub tab_clear : List ℕ → Screen → Screen
tab_clear params s =
    if first params == 0
    then record s { tabs = set_stop s.x false s.tabs }
    else if first params == 3
    then record s { tabs = no_stops }
    else s

-- `while (param--) this.x = this.nextStop();`
unfoldable pub forward_tabs : ℕ → Screen → Screen
forward_tabs zero s = s
forward_tabs (suc n) s = forward_tabs n (record s { x = next_stop s s.x })

unfoldable pub backward_tabs : ℕ → Screen → Screen
backward_tabs zero s = s
backward_tabs (suc n) s = backward_tabs n (record s { x = prev_stop s s.x })

unfoldable pub cursor_forward_tab : List ℕ → Screen → Screen
cursor_forward_tab params s = forward_tabs (at_least_one (first params)) s

unfoldable pub cursor_backward_tab : List ℕ → Screen → Screen
cursor_backward_tab params s = backward_tabs (at_least_one (first params)) s
