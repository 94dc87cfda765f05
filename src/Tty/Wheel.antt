-- ===== src/Tty/Wheel.antt =====
-- `Tab.prototype.bindMouse`: the wheel over the tab of a program that scrolls by keys.
use genie_tangle.Prelude.{
  if◌then◌else◌, ◌∷◌, ok, false, not, [], List, Outcome, ℕ, ◌||◌, text_eq, codes, Bool,
  if◌then◌else◌, if◌then◌else◌,
}
use genie_tangle.Tty.Output.{tab_key_down}
use genie_tangle.Tty.State.{Tty, tab_of}
use genie_tangle.Terminal.Keys.{KeyEvent}

-- `Tab.scrollable`
abbrev pub scrollable_names : List (List ℕ)
scrollable_names =
    codes "irssi"
    ∷ codes "man"
    ∷ codes "less"
    ∷ codes "htop"
    ∷ codes "top"
    ∷ codes "w3m"
    ∷ codes "lynx"
    ∷ codes "mocp"
    ∷ codes "vim"
    ∷ []

abbrev pub text_in : List ℕ → List (List ℕ) → Bool
text_in text [] = false
text_in text (other ∷ others) = text_eq other text || text_in text others

-- `Tab.scrollable[process]`; what every object has under other names is left out
unfoldable pub scrollable : List ℕ → Bool
scrollable process = text_in process scrollable_names

-- `{keyCode: 33}` and `{keyCode: 34}`
abbrev pub page_key : Bool → KeyEvent
page_key turned_up = record {
  key_code = if turned_up then 33 else 34;
  shift_key = false;
  ctrl_key = false;
  alt_key = false;
  meta_key = false;
}

-- `turned_up` is that the wheel is turned up; `mac` is read by other keys alone.
unfoldable pub tab_wheel : Bool → Bool → ℕ → Tty → Outcome Tty
tab_wheel mac turned_up i p =
    if (tab_of i p).term.modes.mouse_events
    then ok p
    else if not (scrollable (tab_of i p).process)
    then ok p
    else tab_key_down mac (page_key turned_up) i p
