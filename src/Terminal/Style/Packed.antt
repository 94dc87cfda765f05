-- ===== src/Terminal/Style/Packed.antt =====
-- `charAttributes` on packed attributes.
use genie_tangle.Screen.{def_attr}
use genie_tangle.Terminal.Attr.{
  set_flag, has_flag, set_fg, simple_attribute, swap_colors, is_extended, bg_of, clear_flag,
  attributes, set_bg, extended_attribute, fg_of,
}
use genie_tangle.Terminal.Style.Defs.{
  bold_on, restyled_once, rendered, inverse_on, restyled, paper, Rendition, ink, inverse_off, plain,
  bold_off, underline_off, underline_on, packed, as_it_is, chosen, IsColored, all_off, Style,
  swapped, rendition_of,
}
use genie_tangle.Prelude.{
  if◌then◌else◌, refl, true, false, Bool-cases, [], arith, ◌≡◌, if◌then◌else◌, if◌then◌else◌,
  if-apply, ℕ, ◌∷◌, inl, List, inr, ◌%◌, ◌==◌, ◌∙◌,
}

set_fg-packed :
    (c : ℕ) (st : Style) → IsColored st → set_fg c (packed st) ≡ packed (record st { fg = c })
unfolding set_fg
set_fg-packed c st v = ground (arith, v.fg_in, v.bg_in)

set_bg-packed :
    (c : ℕ) (st : Style) → IsColored st → set_bg c (packed st) ≡ packed (record st { bg = c })
unfolding set_bg
set_bg-packed c st v = ground (arith, v.fg_in, v.bg_in)

swap_colors-packed :
    (st : Style)
    → IsColored st
    → swap_colors (packed st) ≡ packed (record st { fg = st.bg; bg = st.fg })
unfolding swap_colors
swap_colors-packed st v = ground (arith, v.fg_in, v.bg_in)

has_flag-packed :
    (st : Style)
    → IsColored st
    → (has_flag 1 (packed st) ≡ st.bold)
      × (has_flag 2 (packed st) ≡ st.underlined)
      × (has_flag 4 (packed st) ≡ st.inverse)
unfolding has_flag
has_flag-packed st v = ground (arith, v.fg_in, v.bg_in)

set_flag-packed :
    (st : Style)
    → IsColored st
    → (set_flag 1 (packed st) ≡ packed (record st { bold = true }))
      × (set_flag 2 (packed st) ≡ packed (record st { underlined = true }))
      × (set_flag 4 (packed st) ≡ packed (record st { inverse = true }))
unfolding set_flag
set_flag-packed st v = ground (arith, has_flag-packed st v)

clear_flag-packed :
    (st : Style)
    → IsColored st
    → (clear_flag 1 (packed st) ≡ packed (record st { bold = false }))
      × (clear_flag 2 (packed st) ≡ packed (record st { underlined = false }))
      × (clear_flag 4 (packed st) ≡ packed (record st { inverse = false }))
unfolding clear_flag
clear_flag-packed st v = ground (arith, has_flag-packed st v)

def_attr_is : (fg_of def_attr ≡ 257) × (bg_of def_attr ≡ 256) × (packed plain ≡ def_attr)
def_attr_is = (refl, refl, refl)

swap_on :
    (st : Style) → IsColored st → swap_colors (set_flag 4 (packed st)) ≡ packed (swapped true st)
swap_on st v = rw (set_flag-packed st v).2 (
    swap_colors-packed (record st { inverse = true }) (record { fg_in = v.fg_in; bg_in = v.bg_in }))

swap_off :
    (st : Style) → IsColored st → swap_colors (clear_flag 4 (packed st)) ≡ packed (swapped false st)
swap_off st v = rw (clear_flag-packed st v).2 (
    swap_colors-packed (record st { inverse = false })
      (record { fg_in = v.fg_in; bg_in = v.bg_in }))

-- The branches of the code on the packed number.
abbrev packed_rendered : Rendition → ℕ → ℕ
packed_rendered all_off a = def_attr
packed_rendered bold_on a = set_flag 1 a
packed_rendered underline_on a = set_flag 2 a
packed_rendered inverse_on a = if has_flag 4 a then a else swap_colors (set_flag 4 a)
packed_rendered bold_off a = clear_flag 1 a
packed_rendered underline_off a = clear_flag 2 a
packed_rendered inverse_off a = if has_flag 4 a then swap_colors (clear_flag 4 a) else a
packed_rendered (ink c) a = set_fg c a
packed_rendered (paper c) a = set_bg c a
packed_rendered as_it_is a = a

simple_attribute-rendition : (p a : ℕ) → simple_attribute p a ≡ packed_rendered (rendition_of p) a
unfolding simple_attribute
simple_attribute-rendition p a = ground arith

packed_rendered-packed :
    (r : Rendition) (st : Style)
    → IsColored st
    → packed_rendered r (packed st) ≡ packed (rendered r st)
packed_rendered-packed all_off st v = refl
packed_rendered-packed bold_on st v = (set_flag-packed st v).0
packed_rendered-packed underline_on st v = (set_flag-packed st v).1
packed_rendered-packed inverse_on st v =
    rw ((has_flag-packed st v).2, swap_on st v) (if-apply packed st.inverse st (swapped true st))
packed_rendered-packed bold_off st v = (clear_flag-packed st v).0
packed_rendered-packed underline_off st v = (clear_flag-packed st v).1
packed_rendered-packed inverse_off st v =
    rw ((has_flag-packed st v).2, swap_off st v) (if-apply packed st.inverse (swapped false st) st)
packed_rendered-packed (ink c) st v = set_fg-packed c st v
packed_rendered-packed (paper c) st v = set_bg-packed c st v
packed_rendered-packed as_it_is st v = refl

simple_attribute-packed :
    (p : ℕ) (st : Style)
    → IsColored st
    → simple_attribute p (packed st) ≡ packed (restyled_once p st)
simple_attribute-packed p st v =
    simple_attribute-rendition p (packed st) ∙ packed_rendered-packed (rendition_of p) st v

extended_attribute-packed :
    (p c : ℕ) (st : Style)
    → IsColored st
    → extended_attribute p c (packed st) ≡ packed (chosen p c st)
unfolding extended_attribute
extended_attribute-packed p c st v =
    rw (set_fg-packed (c % 256) st v, set_bg-packed (c % 256) st v)
      (if-apply packed (p == 38) (record st { fg = c % 256 }) (record st { bg = c % 256 }))

rendered-IsColored : (p : ℕ) (st : Style) → IsColored st → IsColored (restyled_once p st)
rendered-IsColored p st v = ground (arith, v.fg_in, v.bg_in)

chosen-IsColored : (p c : ℕ) (st : Style) → IsColored st → IsColored (chosen p c st)
chosen-IsColored p c st v = ground (arith, v.fg_in, v.bg_in)

-- For every list of parameters, the 256-colour forms among them, and every style with colours below
-- 512: the loop of `charAttributes` turns the packed attribute of the style into the packed attribute
-- of the style that is restyled parameter by parameter, and its colours are below 512 again. The
-- parameters 5 (blink), 8 (invisible) and all others without a branch in the code leave the style.
pub attributes-restyled :
    (ps : List ℕ) (st : Style)
    → IsColored st
    → (attributes ps (packed st) ≡ packed (restyled ps st)) × IsColored (restyled ps st)
unfolding attributes
attributes-restyled [] st v = (refl, v)
attributes-restyled (p ∷ []) st v = (simple_attribute-packed p st v, rendered-IsColored p st v)
attributes-restyled (p ∷ q ∷ []) st v = elim (Bool-cases (is_extended p q)) [
  | inl e ↦
      rw (attributes, restyled, e) (extended_attribute-packed p 0 st v, chosen-IsColored p 0 st v)
  | inr e ↦
      rw (attributes, restyled, e, simple_attribute-packed p st v)
        (attributes-restyled (q ∷ []) (restyled_once p st) (rendered-IsColored p st v))
]
attributes-restyled (p ∷ q ∷ c ∷ ps) st v = elim (Bool-cases (is_extended p q)) [
  | inl e ↦
      rw (attributes, restyled, e, extended_attribute-packed p c st v)
        (attributes-restyled ps (chosen p c st) (chosen-IsColored p c st v))
  | inr e ↦
      rw (attributes, restyled, e, simple_attribute-packed p st v)
        (attributes-restyled (q ∷ c ∷ ps) (restyled_once p st) (rendered-IsColored p st v))
]
