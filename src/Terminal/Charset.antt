-- ===== src/Terminal/Charset.antt =====
-- `setgLevel`, `setgCharset`, and the table of the line drawing set.
use genie_tangle.Prelude.{
  ℕ, ◌-◌, List, [], ◌∷◌, Option, none, some, leb, ◌==◌, if◌then◌else◌, get_elem?, get_or, assign,
}
use genie_tangle.Terminal.State.{CharacterSet, ascii, scld, Charsets}

unfoldable pub set_glevel : ℕ → Charsets → Charsets
set_glevel g s = record s { glevel = g; charset = get_or s.charsets g ascii }

-- With `g = null` the set goes to a property of the array that nothing reads.
unfoldable pub set_gcharset : Option ℕ → CharacterSet → Charsets → Charsets
set_gcharset none cs s = s
set_gcharset (some g) cs s = record s {
  charsets = assign ascii s.charsets g cs;
  charset = if s.glevel == g then cs else s.charset;
}

-- `Terminal.charsets.SCLD`, from the code 96 on
abbrev pub scld_table : List ℕ
scld_table =
    0x25c6 ∷ 0x2592 ∷ 0x0009 ∷ 0x000c ∷ 0x000d ∷ 0x000a ∷ 0x00b0 ∷ 0x00b1 ∷ 0x2424 ∷ 0x000b ∷ 0x2518
    ∷ 0x2510 ∷ 0x250c ∷ 0x2514 ∷ 0x253c ∷ 0x23ba ∷ 0x23bb ∷ 0x2500 ∷ 0x23bc ∷ 0x23bd ∷ 0x251c
    ∷ 0x2524 ∷ 0x2534 ∷ 0x252c ∷ 0x2502 ∷ 0x2264 ∷ 0x2265 ∷ 0x03c0 ∷ 0x2260 ∷ 0x00a3 ∷ 0x00b7 ∷ []

-- `if (this.charset && this.charset[ch]) ch = this.charset[ch];`
unfoldable pub translate : CharacterSet → ℕ → ℕ
translate ascii ch = ch
translate scld ch = elim (get_elem? scld_table (ch - 96)) [
  | none ↦ ch
  | some c ↦ if leb 96 ch then c else ch
]
