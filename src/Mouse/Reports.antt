-- ===== src/Mouse/Reports.antt =====
-- `sendEvent`: the five forms of a report.
use genie_tangle.Mouse.Buttons.{Position}
use genie_tangle.Terminal.{send, Terminal}
use genie_tangle.Mouse.Bytes.{encode}
use genie_tangle.Prelude.{
  some, Bool, List, ◌++◌, [], ◌-◌, if◌then◌else◌, ◌+◌, none, false, Option, ◌==◌, ◌∷◌, codes,
  if◌then◌else◌, decimal, ◌%◌, if◌then◌else◌, ℕ,
}

-- Two forms that no sequence switches on: `vt300Mouse` and `decLocator` are never assigned.
pub record Locators : Type 0 where
  pub vt300_mouse : Bool
  pub dec_locator : Bool

abbrev pub no_locators : Locators
no_locators = record { vt300_mouse = false; dec_locator = false }

abbrev escape : List ℕ → List ℕ
escape text = 27 ∷ text

-- `button &= 3`; nothing is sent for a release
unfoldable pub vt300_report : ℕ → Position → Option (List ℕ)
vt300_report button pos =
    let b = button % 4 in
    if b == 3
    then none
    else some (
        escape (codes "[24")
        ++ ((if b == 0 then b'1' else if b == 1 then b'3' else b'5')
            ∷ (codes "~["
                ++ (decimal (pos.x - 32) ++ (b',' ∷ (decimal (pos.y - 32) ++ codes "]\r"))))))

unfoldable pub locator_report : ℕ → Position → List ℕ
locator_report button pos =
    let b = button % 4 in
    let code = if b == 0 then 2 else if b == 1 then 4 else if b == 2 then 6 else 3 in
    escape (
      b'['
      ∷ (decimal code
          ++ (b';'
              ∷ (decimal (if code == 3 then 4 else 0)
                  ++ (b';'
                      ∷ (decimal (pos.y - 32)
                          ++ (b';' ∷ (decimal (pos.x - 32) ++ codes ";0&w"))))))))

unfoldable pub urxvt_report : ℕ → Position → List ℕ
urxvt_report button pos = escape (
    b'['
    ∷ (decimal button
        ++ (b';' ∷ (decimal (pos.x - 32 + 1) ++ (b';' ∷ (decimal (pos.y - 32 + 1) ++ codes "M"))))))

-- `(button & 3) === 3`
abbrev pub is_release : ℕ → Bool
is_release button = button % 4 == 3

unfoldable pub sgr_report : ℕ → Position → List ℕ
sgr_report button pos = escape (
    b'['
    ∷ b'<'
    ∷ (decimal (if is_release button then button - 3 else button)
        ++ (b';'
            ∷ (decimal (pos.x - 32)
                ++ (b';'
                    ∷ (decimal (pos.y - 32)
                        ++ (if is_release button then b'm' ∷ [] else b'M' ∷ [])))))))

unfoldable pub byte_report : Bool → ℕ → Position → List ℕ
byte_report utf8 button pos =
    escape (b'[' ∷ b'M' ∷ (encode utf8 button ++ (encode utf8 pos.x ++ encode utf8 pos.y)))

-- The text that is sent, if any.
unfoldable pub report : Locators → Terminal → ℕ → Position → Option (List ℕ)
report l t button pos =
    if l.vt300_mouse
    then vt300_report button pos
    else if l.dec_locator
    then some (locator_report button pos)
    else if t.modes.urxvt_mouse
    then some (urxvt_report button pos)
    else if t.modes.sgr_mouse
    then some (sgr_report button pos)
    else some (byte_report t.modes.utf_mouse button pos)

abbrev send_report : Option (List ℕ) → Terminal → Terminal
send_report none t = t
send_report (some text) t = send text t

unfoldable pub send_event : Locators → ℕ → Position → Terminal → Terminal
send_event l button pos t = send_report (report l t button pos) t
