-- ===== src/Windows/Tabs.antt =====
-- `indexOf`, `splice`, `focusTab`, `Tab.prototype.focus` and `_destroy` on a window's list of tabs. A
-- tab is known by its identity, a number. The elements of the page, the socket, the events and the
-- browser's own focus are left out.
use genie_tangle.Prelude.{
  ◌||◌, if◌then◌else◌, some, false, if◌then◌else◌, Option, Bool, true, [], zero, ℕ, get_or, push,
  none, length, ◌==◌, erase_at, List, ◌+◌, ◌∷◌, if◌then◌else◌, get_elem?, suc,
}

-- `while (i--) { if (obj[i] === el) { return i; } } return -1;` with `i` rounds left
unfoldable pub index_from : ℕ → List ℕ → ℕ → Option ℕ
index_from zero obj el = none
index_from (suc i) obj el =
    let rest = index_from i obj el in if get_or obj i 0 == el then some i else rest

unfoldable pub index_of : List ℕ → ℕ → Option ℕ
index_of obj el = index_from (length obj) obj el

-- `if (~i) { obj.splice(i, 1); }`
abbrev pub erase_found : List ℕ → Option ℕ → List ℕ
erase_found obj none = obj
erase_found obj (some i) = erase_at obj i

unfoldable pub splice : List ℕ → ℕ → List ℕ
splice obj el = erase_found obj (index_of obj el)

-- The fields of `Window` that the tabs read and write.
pub record Window : Type 0 where
  pub tabs : List ℕ
  pub focused : Option ℕ

-- the index of the focused tab; nothing is found for `null`
abbrev pub focused_index : Window → Option ℕ
focused_index w = elim w.focused [ none ↦ none | some tab ↦ index_of w.tabs tab ]

abbrev pub or_else : Option ℕ → Option ℕ → Option ℕ
or_else none o = o
or_else (some a) o = some a

-- `tabs[--i]`, where there is no tab at -1 and -2
abbrev pub before : List ℕ → Option ℕ → Option ℕ
before tabs none = none
before tabs (some zero) = none
before tabs (some (suc i)) = get_elem? tabs i

-- `tabs[++i]`, which is the first tab from -1
abbrev pub behind : List ℕ → Option ℕ → Option ℕ
behind tabs none = get_elem? tabs 0
behind tabs (some i) = get_elem? tabs (i + 1)

-- `tabs[--l]`
abbrev pub last_tab : List ℕ → Option ℕ
last_tab tabs = before tabs (some (length tabs))

-- The tab that `focusTab` focuses, if any: the next or the previous one, round the ends.
unfoldable pub focus_target : Bool → Window → Option ℕ
focus_target false w =
    or_else (before w.tabs (focused_index w)) (or_else (last_tab w.tabs) w.focused)
focus_target true w =
    or_else (behind w.tabs (focused_index w)) (or_else (get_elem? w.tabs 0) w.focused)

-- `Tab.prototype.focus`
abbrev pub focus_on : Option ℕ → Window → Window
focus_on none w = w
focus_on (some tab) w = record w { focused = some tab }

unfoldable pub focus_tab : Bool → Window → Window
focus_tab next w = focus_on (focus_target next w) w

-- `win.tabs.push(this)` of the constructor `Tab`
unfoldable pub add_tab : ℕ → Window → Window
add_tab tab w = record w { tabs = push w.tabs tab }

abbrev pub is_focused : ℕ → Option ℕ → Bool
is_focused tab none = false
is_focused tab (some f) = f == tab

-- `splice(win.tabs, this); if (win.focused === this) { win.previousTab(); }` of `_destroy`
unfoldable pub destroy_tab : ℕ → Window → Window
destroy_tab tab w =
    let w' = record w { tabs = splice w.tabs tab } in
    if is_focused tab w.focused then focus_tab false w' else w'

-- `sanitize`: `replace(/[&<>]/g, '')`
abbrev pub is_markup : ℕ → Bool
is_markup ch = ch == b'&' || ch == b'<' || ch == b'>'

unfoldable pub sanitize : List ℕ → List ℕ
sanitize [] = []
sanitize (ch ∷ chs) = if is_markup ch then sanitize chs else ch ∷ sanitize chs
