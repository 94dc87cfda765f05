-- ===== src/Rendering/Reader.antt =====
-- A reader of HTML, written without regard to `refresh`: characters, character references, and tags
-- with attributes in double quotes. It takes one element at a time, with nothing nested in it.
use genie_tangle.Prelude.{
  if◌then◌else◌, none, List, if◌then◌else◌, [], text_eq, ◌==◌, codes, ℕ, ◌∷◌, if◌then◌else◌, some,
  Option, push,
}

-- A character that the user sees, with the tag of the element that it stands in.
abbrev pub Glyph : Type 0
Glyph = Option (List ℕ) × ℕ

pub data Reading : Type 0 where
  in_text : Reading
  in_tag in_quotes in_reference : List ℕ → Reading

pub record Reader : Type 0 where
  pub reading : Reading
  -- the tag of the open element
  pub element : Option (List ℕ)
  pub glyphs : List Glyph

abbrev pub see : ℕ → Reader → Reader
see ch r = record r { reading = in_text; glyphs = push r.glyphs (r.element, ch) }

abbrev pub end_tag : List ℕ → Reader → Option Reader
end_tag tag r = elim r.element [
  | none ↦
      if text_eq tag (codes "/span")
      then none
      else some (record r { reading = in_text; element = some tag })
  | some old ↦
      if text_eq tag (codes "/span")
      then some (record r { reading = in_text; element = none })
      else none
]

abbrev pub end_reference : List ℕ → Reader → Option Reader
end_reference name r =
    if text_eq name (codes "amp")
    then some (see b'&' r)
    else if text_eq name (codes "lt")
    then some (see b'<' r)
    else if text_eq name (codes "gt")
    then some (see b'>' r)
    else if text_eq name (codes "nbsp")
    then some (see 160 r)
    else none

abbrev pub advance_in : Reading → ℕ → Reader → Option Reader
advance_in in_text ch r =
    if ch == b'<'
    then some (record r { reading = in_tag [] })
    else if ch == b'&'
    then some (record r { reading = in_reference [] })
    else some (see ch r)
advance_in (in_tag tag) ch r =
    if ch == b'>'
    then end_tag tag r
    else if ch == b'"'
    then some (record r { reading = in_quotes (push tag ch) })
    else some (record r { reading = in_tag (push tag ch) })
advance_in (in_quotes tag) ch r =
    if ch == b'"'
    then some (record r { reading = in_tag (push tag ch) })
    else some (record r { reading = in_quotes (push tag ch) })
advance_in (in_reference name) ch r =
    if ch == b';'
    then end_reference name r
    else some (record r { reading = in_reference (push name ch) })

abbrev pub and_then : Option Reader → (Reader → Option Reader) → Option Reader
and_then none f = none
and_then (some r) f = f r

unfoldable pub read : List ℕ → Reader → Option Reader
read [] r = some r
read (ch ∷ chs) r = and_then (advance_in r.reading ch r) (read chs)

abbrev pub finished : Option Reader → Option (List Glyph)
finished none = none
finished (some r) = elim r.reading [
  | in_text ↦ elim r.element [ none ↦ some r.glyphs | some tag ↦ none ]
  | _ ↦ none
]

abbrev pub outside : Option (List ℕ) → List Glyph → Reader
outside element glyphs = record { reading = in_text; element = element; glyphs = glyphs }

-- The glyphs of a row, if every element in it is closed.
unfoldable pub glyphs_of : List ℕ → Option (List Glyph)
glyphs_of html = finished (read html (outside none []))
