-- ===== src/Tty/State.antt =====
-- The objects of the page. A tab and a window are known by the place at which they were made, so that
-- what two objects share is one entry of the store. Left out are the elements but for the texts and
-- marks that the code sets on them, and the events of `tty`, which nothing in the code listens to.
use genie_tangle.Windows.{Window, is_focused}
use genie_tangle.Terminal.{Terminal, blank_terminal}
use genie_tangle.Prelude.{false, push, List, ℕ, get_or, set, Option, Bool, none, [], some}

-- The fields of `Tab` beyond those of `Terminal`.
pub record Tab : Type 0 where
  pub window : ℕ
  -- `''` until the tab is ready
  pub id : List ℕ
  pub pty : Bool
  pub process : List ℕ
  pub title : List ℕ
  pub term : Terminal
  -- the button: `color: red`, and `fontWeight: bold`
  pub red : Bool
  pub bold : Bool
  -- whether the tab's element stands in its window
  pub shown : Bool
  pub destroyed : Bool

-- The fields of `Window`; its tabs and the focused one are those of the model of `focusTab`.
pub record Frame : Type 0 where
  pub inner : Window
  pub cols : ℕ
  pub rows : ℕ
  -- `title.innerHTML` and `bar.title`
  pub heading : List ℕ
  pub tip : List ℕ
  -- what `this.minimize` goes back to, while there is one
  pub minimize : Option (ℕ × ℕ)
  pub closed : Bool

-- What is published on the channels of the user.
pub data Message : Type 0 where
  input : List ℕ → List ℕ → Message
  resized : List ℕ → ℕ → ℕ → Message
  -- its `id` is the object `{ id: … }`, and not the text
  killed : List ℕ → Message

pub record Tty : Type 0 where
  pub tabs : List Tab
  pub frames : List Frame
  -- `tty.windows`
  pub windows : List ℕ
  -- `tty.terms`
  pub terms : List (List ℕ × ℕ)
  -- `Terminal.focus`
  pub focus : Option ℕ
  pub published : List Message

-- Read for a number that no tab and no window has.
abbrev pub no_tab : Tab
no_tab = record {
  window = 0;
  id = [];
  pty = false;
  process = [];
  title = [];
  term = blank_terminal;
  red = false;
  bold = false;
  shown = false;
  destroyed = false;
}

abbrev pub no_frame : Frame
no_frame = record {
  inner = record { tabs = []; focused = none };
  cols = 0;
  rows = 0;
  heading = [];
  tip = [];
  minimize = none;
  closed = false;
}

abbrev pub tab_of : ℕ → Tty → Tab
tab_of i p = get_or p.tabs i no_tab

abbrev pub frame_of : ℕ → Tty → Frame
frame_of w p = get_or p.frames w no_frame

abbrev pub on_tab : ℕ → (Tab → Tab) → Tty → Tty
on_tab i f p = record p { tabs = set p.tabs i (f (tab_of i p)) }

abbrev pub on_frame : ℕ → (Frame → Frame) → Tty → Tty
on_frame w f p = record p { frames = set p.frames w (f (frame_of w p)) }

abbrev pub on_term : ℕ → (Terminal → Terminal) → Tty → Tty
on_term i f p = on_tab i (λ t. record t { term = f t.term }) p

abbrev pub publish : Message → Tty → Tty
publish m p = record p { published = push p.published m }

-- `win.focused === tab`
abbrev pub holds_focus : ℕ → ℕ → Tty → Bool
holds_focus w i p = is_focused i (frame_of w p).inner.focused

-- A call on what is there, if it is there.
abbrev pub for_some : (ℕ → Tty → Tty) → Option ℕ → Tty → Tty
for_some f none p = p
for_some f (some j) p = f j p
