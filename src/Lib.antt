-- ===== src/Lib.antt =====
-- The terminal in the browser (static/term.js) and the page of windows and tabs around it
-- (static/tty.js): what the programs on the other side write, what becomes of the screen, what the
-- page shows of it, and what the keys, the mouse and the windows send back.
--
-- `write` reads a text character by character. A parser with seven states turns it into calls of
-- handlers; the handlers change the buffer of lines, the cursor, the attributes and the modes, and
-- some of them send answers. `refresh` writes the buffer as HTML. `Tab` is a `Terminal` in a
-- `Window`; the socket brings texts to the tabs by their ids, and takes what they send. The files:
--
--   Screen/Buffer     the fields that the handlers of the screen work on, blank lines, `updateRange`
--   Screen/Tabs       `setupStops`, `nextStop`, `prevStop`, `tabSet`, `tabClear`, the tabulations
--   Screen/Erase      `eraseRight`, `eraseLeft`, `eraseLine`, `eraseInDisplay`, `eraseInLine`
--   Screen/Scroll     `scroll`, `scrollDisp`, `index`, `reverseIndex`, `scrollUp`, `scrollDown`
--   Screen/Lines      `insertLines`, `deleteLines`
--   Screen/Cursor     the cursor's handlers, `setScrollRegion`, `saveCursor`, `restoreCursor`
--   Screen/Chars      `insertChars`, `deleteChars`, `eraseChars`, `repeatPrecedingCharacter`, printing
--   Screen/Rectangles `setAttrInRectangle`, `fillRectangle`, `eraseRectangle`
--   Screen/Size       the constructor and `resize`, on the buffer
--   Terminal/State    all fields of `Terminal`, `reset`, `resize`, `send`, `showCursor`, `bell`
--   Terminal/Charset  `setgLevel`, `setgCharset`, the line drawing set
--   Terminal/Attr     `charAttributes`
--   Terminal/Modes    `setMode`, `resetMode`, `softReset`, the alternate screen
--   Terminal/Report   `deviceStatus`, `sendDeviceAttributes`
--   Terminal/Esc      the states `normal`, `escaped` and `charset` of `write`
--   Terminal/Csi      the state `csi`, and the table of final characters
--   Terminal/Strings  the states `osc`, `dcs` and `ignore`
--   Terminal/Write    `write` and `writeln`
--   Terminal/Keys     `keyDown` and `keyPress`
--   Events/Emitter    `EventEmitter`
--   Rendering/Colors  the table of colours
--   Rendering/Rows    the body of the loop of `refresh`: a line as HTML
--   Rendering/Refresh `refresh` on the rows of the page, and `cursorBlink`
--   Mouse/Buttons     `getButton` and `getCoords`
--   Mouse/Bytes       `encode`
--   Mouse/Reports     `sendEvent`, in all forms of a report
--   Mouse/Listeners   the listeners of `bindMouse`, and which of them are bound
--   Windows/Tabs      the list of a window's tabs and its focus, from static/tty.js
--   Tty/State         the store of tabs and windows, the registry, and what is published
--   Tty/Titles        `handleTitle`, `setProcessName`, and the listeners that name a tab
--   Tty/Focus         `focus` of a terminal, a tab and a window, `focusTab`
--   Tty/Output        `handler` and `write` of a tab, and the calls that its terminal makes
--   Tty/Sizes         `resize`, `maximize` and `minimize`, and the page's `resize`
--   Tty/Making        the constructors `Tab` and `Window`, `ready`
--   Tty/Ending        `destroy` of a tab and of a window
--   Tty/Wheel         `bindMouse` of a tab
--   Tty/Events        all that may happen to the page, and the pages that come of it
--   Tty/Socket        the listeners of the socket in `tty.open`
--   Tty/Callbacks     `fayep` and `fayec`
--
-- A function of the code has its name here in lower case with underscores. A handler that only
-- changes the screen is a function from screens to screens; one that indexes a line that may be
-- missing returns an outcome, `fault type_error` where the browser throws a `TypeError`, and
-- `fault not_a_number` where a coordinate becomes `NaN`, behind which nothing is modelled. What
-- leaves the object, such as a repaint or a title, is recorded in order as an effect.
--
-- `refresh` throws where a cell is missing that it shows. The call in the terminal computes whether
-- it does, and notes it in the field `threw`. What the run does after that has no meaning:
-- `write` settles to `fault type_error` at its end, and an event of the page
-- (`happen` in Tty/Events) does where a terminal of the page has noted a throw. A sound terminal
-- has noted none, and its buffer and the one that it put aside have no cell missing.
--
-- Screen/Valid and Terminal/Valid have the invariants and the lemmas of the operations on them.
-- Screen/View describes what the scrolling handlers do to the rows that the user sees,
-- Screen/Cells what the erasing and editing handlers do to the cells, Screen/Stops the tab stops,
-- Screen/Faults where the code throws; Terminal/Style describes the attributes as flags and
-- colours, Terminal/Sequences what whole control sequences do, Terminal/Alternate the alternate
-- screen, Terminal/Answers what is sent, Terminal/Typing what a key sends, Events/Emit what `emit`
-- calls, and Windows/Order, Windows/Focus and Windows/Closing what becomes of the tabs.
-- Rendering/Reader and Mouse/Reader read HTML and reports without regard to the code that writes
-- them; Rendering/ReadBack, Rendering/Repainted, Mouse/Heard and Mouse/Clicks compare the two,
-- Rendering/Written puts `write` and `refresh` together, and Rendering/Thrown says where `refresh`
-- throws.
-- Mouse/Tracking is on the listeners. Tty/Focused, Tty/Registered,
-- Tty/Replies, Tty/Typed, Tty/Screens, Tty/Resized and Tty/Reached are on the page,
-- with the lemmas in Tty/Loops and Tty/Stays, and in Tty/Kept, Tty/Whole and Tty/Runs, which are
-- on any property of the page that its single changes keep. Tests has runs on short texts, and the
-- theorems at sample values.
--
-- A tab and a window are known by the place in the store at which they were made, so that a tab
-- that two objects hold is one entry. What a terminal does outside of itself is recorded by the
-- model of the terminal and done by the tab behind the run; nothing in the rest of the run reads
-- what it changes.
--
-- Numbers are natural. The code's coordinates are integers that a test holds at 0 or above, so
-- that a difference that stops at 0 is the code's value; where an intermediate value may be
-- negative, the comment at the definition says how it is written. A parameter of a control
-- sequence has no bound here; in the code it is a floating point number, which is exact up to 2 ^
-- 53. An attribute is a number below 2 ^ 21, on which the masks and shifts of the code are
-- quotients and remainders.
--
-- Loops that count down are structural recursion. The scan of `nextStop` has `cols - x + 1`
-- rounds, which is enough since it stops at `cols`; `setupStops` has as many rounds as there are
-- columns left divided by eight, rounded up; `refresh` has a round for each row of its range, and for
-- each column; a number is printed in one round more than its value,
-- and each round divides it by ten.
--
-- `focus` of a tab and `focus` of a window call each other; the model has as many rounds as it is
-- given, and `focus_on_tab` two, which is enough since the second finds the focus in place. The
-- loops over the tabs of a window have as many rounds as the window has tabs.
--
-- Not modelled: the elements of the page and their geometry. A row of the page is the text that
-- `refresh` gives it, a button or a bar of a window the texts and marks that the code sets; the
-- place of the mouse in cells, before it is held inside the screen, is a part of the event. Timers
-- are calls that may come at any time. Left out are `hookKeys`, whose call in `Tab` is a comment,
-- and what only it calls (`specialKeyHandler`, `_ignoreNext`, `highlight`), `insertColumns` and
-- `deleteColumns`, which nothing calls and which throw at once, the handlers with an empty body,
-- and the server, which is written in Ruby. The constructor's options and its data handler are
-- left out; what it is given is the size. What a listener does when `emit` calls it is outside of
-- the model, and the events that a key emits before its text is handed over are left out.
mod Prelude
pub mod Screen
pub mod Terminal
pub mod Events
pub mod Rendering
pub mod Mouse
pub mod Windows
pub mod Tty
mod Tests
