-- ===== src/Rendering/Rows.antt =====
-- The inner loop of `refresh`: one line of the buffer becomes the HTML of a row.
use genie_tangle.Terminal.Attr.{bg_of, has_flag, fg_of}
use genie_tangle.Rendering.Colors.{color}
use genie_tangle.Screen.{cell, Row, def_attr, hole}
use genie_tangle.Prelude.{
  Bool, get_elem?, ltb, ◌&&◌, ℕ, true, Option, ◌++◌, type_error, List, ok, codes, ◌+◌, leb, Outcome,
  ◌>>=◌, if◌then◌else◌, false, some, suc, not, [], if◌then◌else◌, fault, ◌==◌, if◌then◌else◌, none,
  zero, ◌∷◌,
}

-- `data` and `attr` of `refresh`: an attribute, or the -1 of the cursor.
pub data Look : Type 0 where
  reversed : Look
  styled : ℕ → Look

abbrev pub same_look : Look → Look → Bool
same_look reversed reversed = true
same_look reversed (styled b) = false
same_look (styled a) reversed = false
same_look (styled a) (styled b) = a == b

-- `this.defAttr`
abbrev pub default_look : Look
default_look = styled def_attr

abbrev pub text_if : Bool → List ℕ → List ℕ
text_if b text = if b then text else []

-- `fgColor` behind the test for bold
unfoldable pub shown_fg : ℕ → ℕ
shown_fg datum = if has_flag 1 datum && ltb (fg_of datum) 8 then fg_of datum + 8 else fg_of datum

-- The style of an attribute; `broken_bold` is `Terminal.brokenBold`, which `isBoldBroken` measures.
unfoldable pub style_text : Bool → ℕ → List ℕ
style_text broken_bold datum =
    text_if (has_flag 1 datum && not broken_bold) (codes "font-weight:bold;")
    ++ (text_if (has_flag 2 datum) (codes "text-decoration:underline;")
        ++ (text_if (not (bg_of datum == 256))
              (codes "background-color:" ++ (color (bg_of datum) ++ codes ";"))
            ++ text_if (not (shown_fg datum == 257))
                (codes "color:" ++ (color (shown_fg datum) ++ codes ";"))))

unfoldable pub open_span : Bool → Look → List ℕ
open_span broken_bold reversed = codes "<span class=\"reverse-video\">"
open_span broken_bold (styled datum) =
    codes "<span style=\"" ++ (style_text broken_bold datum ++ codes "\">")

abbrev pub close_span : List ℕ
close_span = codes "</span>"

-- `if (data !== attr) { … }`
unfoldable pub change_span : Bool → Look → Look → List ℕ
change_span broken_bold attr datum =
    if same_look datum attr
    then []
    else text_if (not (same_look attr default_look)) close_span
      ++ text_if (not (same_look datum default_look)) (open_span broken_bold datum)

-- `switch (ch)`
unfoldable pub escaped_char : ℕ → List ℕ
escaped_char ch =
    if ch == b'&'
    then codes "&amp;"
    else if ch == b'<'
    then codes "&lt;"
    else if ch == b'>'
    then codes "&gt;"
    else if leb ch 32
    then codes "&nbsp;"
    else ch ∷ []

-- `if (i === x) data = -1;`, where no `x` is the -1 of a row without the cursor
abbrev pub look_at : Option ℕ → ℕ → ℕ → Look
look_at none i datum = styled datum
look_at (some x) i datum = if i == x then reversed else styled datum

-- `for (; i < width; i++)` with the rounds that are left, and the end of the last span. The parts
-- of `line[i]` are read where there may be no such cell.
unfoldable pub cells_html : Bool → Option ℕ → ℕ → ℕ → Look → Row → Outcome (List ℕ)
cells_html broken_bold x zero i attr line =
    ok (text_if (not (same_look attr default_look)) close_span)
cells_html broken_bold x (suc n) i attr line = elim (get_elem? line i) [
  | none ↦ fault type_error
  | some hole ↦ fault type_error
  | some (cell datum ch) ↦
      let look = look_at x i datum in
      cells_html broken_bold x n (suc i) look line >>= λ rest.
      ok (change_span broken_bold attr look ++ (escaped_char ch ++ rest))
]

-- `out`, for a line of the buffer
unfoldable pub row_html : Bool → Option ℕ → ℕ → Row → Outcome (List ℕ)
row_html broken_bold x width line = cells_html broken_bold x width 0 default_look line
