-- ===== src/Rendering/Quotes.antt =====
-- The style of a span, and the quotes around it.
use genie_tangle.Terminal.Attr.{bg_of, has_flag}
use genie_tangle.Rendering.Rows.{text_if, style_text, shown_fg}
use genie_tangle.Rendering.Colors.{
  hex, grey_colors, colors, cube_colors, color, color_text, hex_digit,
}
use genie_tangle.Prelude.{
  zero, suc, [], List, false, ◌++◌, get_or, true, ◌==◌, refl, codes, ℕ, ◌∷◌, not, arith, Bool, ◌≡◌,
  ◌&&◌, All,
}

abbrev pub LacksQuote : List ℕ → Type 0
LacksQuote text = All (λ ch. (ch == b'"') ≡ false) text

abbrev lacks_quote : List ℕ → Bool
lacks_quote [] = true
lacks_quote (ch ∷ chs) = not (ch == b'"') && lacks_quote chs

abbrev all_lack : List (List ℕ) → Bool
all_lack [] = true
all_lack (t ∷ ts) = lacks_quote t && all_lack ts

lacks_quote-LacksQuote : (text : List ℕ) → lacks_quote text ≡ true → LacksQuote text
lacks_quote-LacksQuote [] e = tt
lacks_quote-LacksQuote (ch ∷ chs) e = ground (arith, lacks_quote-LacksQuote chs)

LacksQuote-append : (a b : List ℕ) → LacksQuote a → LacksQuote b → LacksQuote (a ++ b)
LacksQuote-append [] b h k = k
LacksQuote-append (ch ∷ chs) b (e, h) k = (e, LacksQuote-append chs b h k)

get_or-LacksQuote :
    (ts : List (List ℕ)) (c : ℕ) (d : List ℕ)
    → all_lack ts ≡ true
    → LacksQuote d
    → LacksQuote (get_or ts c d)
get_or-LacksQuote [] c d e h = h
get_or-LacksQuote (t ∷ ts) zero d e h = lacks_quote-LacksQuote t (ground arith)
get_or-LacksQuote (t ∷ ts) (suc c) d e h = get_or-LacksQuote ts c d (ground arith) h

colors-lack : all_lack colors ≡ true
unfolding colors cube_colors grey_colors color_text hex hex_digit
colors-lack = refl

color-LacksQuote : (c : ℕ) → LacksQuote (color c)
unfolding color
color-LacksQuote c =
    get_or-LacksQuote colors c _ colors-lack (lacks_quote-LacksQuote (codes "undefined") refl)

text_if-LacksQuote : (b : Bool) (text : List ℕ) → LacksQuote text → LacksQuote (text_if b text)
text_if-LacksQuote true text h = h
text_if-LacksQuote false text h = tt

-- A declaration with a fixed text, or with a colour, under a condition.
fixed-LacksQuote :
    (b : Bool) (text : List ℕ) → lacks_quote text ≡ true → LacksQuote (text_if b text)
fixed-LacksQuote b text e = text_if-LacksQuote b text (lacks_quote-LacksQuote text e)

colored-LacksQuote :
    (b : Bool) (property : List ℕ) (c : ℕ)
    → lacks_quote property ≡ true
    → LacksQuote (text_if b (property ++ (color c ++ codes ";")))
colored-LacksQuote b property c e = text_if-LacksQuote b (property ++ (color c ++ codes ";")) (
    LacksQuote-append property (color c ++ codes ";") (lacks_quote-LacksQuote property e)
      (LacksQuote-append (color c) (codes ";") (color-LacksQuote c) (refl, tt)))

four-LacksQuote :
    (a b c d : List ℕ)
    → LacksQuote a
    → LacksQuote b
    → LacksQuote c
    → LacksQuote d
    → LacksQuote (a ++ (b ++ (c ++ d)))
four-LacksQuote a b c d p q r s =
    LacksQuote-append a (b ++ (c ++ d)) p
      (LacksQuote-append b (c ++ d) q (LacksQuote-append c d r s))

pub style_text-LacksQuote : (bb : Bool) (datum : ℕ) → LacksQuote (style_text bb datum)
unfolding style_text
style_text-LacksQuote bb datum =
    four-LacksQuote (text_if (has_flag 1 datum && not bb) (codes "font-weight:bold;"))
      (text_if (has_flag 2 datum) (codes "text-decoration:underline;"))
      (text_if (not (bg_of datum == 256))
        (codes "background-color:" ++ (color (bg_of datum) ++ codes ";")))
      (text_if (not (shown_fg datum == 257))
        (codes "color:" ++ (color (shown_fg datum) ++ codes ";")))
      (fixed-LacksQuote (has_flag 1 datum && not bb) (codes "font-weight:bold;") refl)
      (fixed-LacksQuote (has_flag 2 datum) (codes "text-decoration:underline;") refl)
      (colored-LacksQuote (not (bg_of datum == 256)) (codes "background-color:") (bg_of datum) refl)
      (colored-LacksQuote (not (shown_fg datum == 257)) (codes "color:") (shown_fg datum) refl)
