-- ===== src/Terminal/Style/Defs.antt =====
-- The attributes that the user sees, three flags and two colours, and what the code takes the
-- parameters of SGR for. The packed number of the code is an encoding of them.
use genie_tangle.Terminal.Attr.{is_extended}
use genie_tangle.Prelude.{
  if◌then◌else◌, true, false, ◌<◌, ◌&&◌, [], ◌+◌, ◌*◌, if◌then◌else◌, ◌-◌, if◌then◌else◌, leb, ℕ,
  ◌∷◌, List, Bool, ◌%◌, ◌==◌,
}

pub record Style : Type 0 where
  pub bold : Bool
  pub underlined : Bool
  pub inverse : Bool
  pub fg : ℕ
  pub bg : ℕ

abbrev pub plain : Style
plain = record { bold = false; underlined = false; inverse = false; fg = 257; bg = 256 }

-- The colours of the palette, and the two default colours behind them.
pub record IsColored (st : Style) : Type 0 where
  pub fg_in : st.fg < 512
  pub bg_in : st.bg < 512

abbrev pub weight : Bool → ℕ → ℕ
weight b n = if b then n else 0

abbrev pub packed : Style → ℕ
packed st =
    (weight st.bold 1 + weight st.underlined 2 + weight st.inverse 4) * 262144 + st.fg * 512 + st.bg

-- The two colours change places.
abbrev pub swapped : Bool → Style → Style
swapped b st = record st { inverse = b; fg = st.bg; bg = st.fg }

-- What the code takes one parameter of SGR for; 5 (blink) and 8 (invisible) do nothing.
pub data Rendition : Type 0 where
  all_off bold_on underline_on inverse_on bold_off underline_off inverse_off : Rendition
  ink paper : ℕ → Rendition
  as_it_is : Rendition

abbrev pub rendition_of : ℕ → Rendition
rendition_of p =
    if leb 30 p && leb p 37
    then ink (p - 30)
    else if leb 40 p && leb p 47
    then paper (p - 40)
    else if leb 90 p && leb p 97
    then ink (p - 82)
    else if leb 100 p && leb p 107
    then paper (p - 92)
    else if p == 0
    then all_off
    else if p == 1
    then bold_on
    else if p == 4
    then underline_on
    else if p == 7
    then inverse_on
    else if p == 27
    then inverse_off
    else if p == 22
    then bold_off
    else if p == 24
    then underline_off
    else if p == 39
    then ink 257
    else if p == 49
    then paper 256
    else as_it_is

abbrev pub rendered : Rendition → Style → Style
rendered all_off st = plain
rendered bold_on st = record st { bold = true }
rendered underline_on st = record st { underlined = true }
rendered inverse_on st = if st.inverse then st else swapped true st
rendered bold_off st = record st { bold = false }
rendered underline_off st = record st { underlined = false }
rendered inverse_off st = if st.inverse then swapped false st else st
rendered (ink c) st = record st { fg = c }
rendered (paper c) st = record st { bg = c }
rendered as_it_is st = st

abbrev pub restyled_once : ℕ → Style → Style
restyled_once p st = rendered (rendition_of p) st

-- The colour `c` of the 256, for 38 and for 48.
abbrev pub chosen : ℕ → ℕ → Style → Style
chosen p c st = if p == 38 then record st { fg = c % 256 } else record st { bg = c % 256 }

-- The parameters of SGR from the left: `38;5;c` and `48;5;c` choose from the 256 colours.
abbrev pub restyled : List ℕ → Style → Style
restyled [] st = st
restyled (p ∷ []) st = restyled_once p st
restyled (p ∷ q ∷ []) st = elim (is_extended p q) [
  | true ↦ chosen p 0 st
  | false ↦ restyled (q ∷ []) (restyled_once p st)
]
restyled (p ∷ q ∷ c ∷ ps) st = elim (is_extended p q) [
  | true ↦ restyled ps (chosen p c st)
  | false ↦ restyled (q ∷ c ∷ ps) (restyled_once p st)
]
