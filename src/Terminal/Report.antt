-- ===== src/Terminal/Report.antt =====
-- `deviceStatus` and `sendDeviceAttributes`: what the terminal answers.
use genie_tangle.Prelude.{
  ℕ, ◌+◌, Bool, List, [], ◌∷◌, ◌++◌, ltb, ◌==◌, ◌||◌, if◌then◌else◌, codes, text_eq, is_empty,
  starts_with, decimal,
}
use genie_tangle.Screen.{first}
use genie_tangle.Terminal.State.{Terminal, send}
use genie_tangle.Terminal.Modes.{question}

abbrev pub escape : ℕ
escape = 27

-- `'\x1b[' + (y + 1) + ';' + (x + 1) + 'R'`, with `?` behind the bracket for the private form
unfoldable pub cursor_report : List ℕ → Terminal → List ℕ
cursor_report mark t =
    escape
    ∷ b'['
    ∷ (mark ++ (decimal (t.scr.y + 1) ++ (b';' ∷ (decimal (t.scr.x + 1) ++ (b'R' ∷ [])))))

unfoldable pub device_status : List ℕ → Terminal → Terminal
device_status params t =
    if is_empty t.parser.prefix
    then (if first params == 5
        then send (escape ∷ b'[' ∷ b'0' ∷ b'n' ∷ []) t
        else if first params == 6
        then send (cursor_report [] t) t
        else t)
    else if text_eq t.parser.prefix question
    then (if first params == 6 then send (cursor_report question t) t else t)
    else t

-- `Terminal.termName`; no code of the repository sets `this.termName`
abbrev pub term_name : List ℕ
term_name = codes "xterm"

-- `is(term)`
unfoldable pub is : List ℕ → Bool
is term = starts_with term term_name

abbrev pub greater : List ℕ
greater = b'>' ∷ []

unfoldable pub send_device_attributes : List ℕ → Terminal → Terminal
send_device_attributes params t =
    if ltb 0 (first params)
    then t
    else if is_empty t.parser.prefix
    then (if is (codes "xterm") || is (codes "rxvt-unicode") || is (codes "screen")
        then send (escape ∷ codes "[?1;2c") t
        else if is (codes "linux")
        then send (escape ∷ codes "[?6c") t
        else t)
    else if text_eq t.parser.prefix greater
    then (if is (codes "xterm")
        then send (escape ∷ codes "[>0;276;0c") t
        else if is (codes "rxvt-unicode")
        then send (escape ∷ codes "[>85;95;0c") t
        else if is (codes "linux")
        then send (decimal (first params) ++ codes "c") t
        else if is (codes "screen")
        then send (escape ∷ codes "[>83;40003;0c") t
        else t)
    else t
