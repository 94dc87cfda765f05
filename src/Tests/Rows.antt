-- ===== src/Tests/Rows.antt =====
-- The theorems on rendering, on a small screen.
use genie_tangle.Rendering.Thrown.{refresh_page-threw, EndsWhere}
use genie_tangle.Terminal.{refresh, Terminal}
use genie_tangle.Tests.Samples.{sample, sample-IsValid, sample_terminal}
use genie_tangle.Rendering.Refresh.{refresh_page}
use genie_tangle.Terminal.Attr.{has_flag}
use genie_tangle.Rendering.Reader.{glyphs_of}
use genie_tangle.Screen.{Row, def_attr, cell, row_is_whole, hole, rows_are_whole, whole_cells}
use genie_tangle.Rendering.Colors.{
  cube_colors, hex, hex_digit, grey_colors, colors, color_text, color,
}
use genie_tangle.Rendering.Rows.{
  shown_fg, open_span, escaped_char, style_text, cells_html, row_html, change_span,
}
use genie_tangle.Prelude.{
  zero, suc, some, ◌∷◌, ◌*◌, ◌≡◌, All-get_elem?, ◌+◌, [], codes, false, Ends, ℕ, ok, refl, none,
  arith, not, true, length,
}
use genie_tangle.Rendering.Repainted.{IsFilled, IsRepainted, refresh_page-IsRepainted}
use genie_tangle.Rendering.ReadBack.{HasCells, glyphs_from, row_html-reads}

-- The cells of a line of three columns.
three_cells :
    (c : ℕ) → HasCells 3 0 (cell def_attr c ∷ cell def_attr (c + 1) ∷ cell def_attr (c + 2) ∷ [])
three_cells c zero h = (def_attr, c, refl)
three_cells c (suc zero) h = (def_attr, c + 1, refl)
three_cells c (suc (suc zero)) h = (def_attr, c + 2, refl)
three_cells c (suc (suc (suc k))) h = absurd (omega (arith, h))

abbrev sample_row : Row
sample_row = cell def_attr b'<' ∷ cell def_attr (b'<' + 1) ∷ cell def_attr (b'<' + 2) ∷ []

row_html-reads_example :
    Ends
      (λ html. glyphs_of html ≡ some (glyphs_from false (some 1) 3 0 sample_row))
      (row_html false (some 1) 3 sample_row)
row_html-reads_example = row_html-reads false (some 1) 3 sample_row (three_cells b'<')

sample-IsFilled : IsFilled sample
sample-IsFilled i line e =
    All-get_elem? (HasCells 3 0) sample.lines i
      (three_cells b'a', (three_cells b'd', (three_cells b'g', (three_cells b'j', tt)))) e

refresh_page-IsRepainted_example :
    Ends
      (IsRepainted false 1 3 sample_terminal ([] ∷ [] ∷ [] ∷ []))
      (refresh_page false 1 2 sample_terminal ([] ∷ [] ∷ [] ∷ []))
refresh_page-IsRepainted_example =
    refresh_page-IsRepainted false 1 2 sample_terminal ([] ∷ [] ∷ [] ∷ []) sample-IsValid
      sample-IsFilled refl (omega arith) (omega arith)

-- The row of the cursor, as it is written.
cursor_row :
    row_html false (some 1) 3 sample_row
    ≡ ok (codes "&lt;<span class=\"reverse-video\">=</span>&gt;")
unfolding row_html cells_html change_span open_span escaped_char
cursor_row = refl

-- A colour, bold and the name of a colour that the table lacks.
bold_row :
    row_html false none 1 (cell (262144 + 1 * 512 + 300) b'x' ∷ [])
    ≡ ok (
        codes "<span style=\"font-weight:bold;background-color:undefined;color:#ef2929;\">x</span>")
unfolding row_html cells_html change_span open_span escaped_char style_text shown_fg has_flag color
    colors cube_colors grey_colors color_text hex hex_digit
bold_row = refl

-- A gap in the row of the cursor.
abbrev gap_terminal : Terminal
gap_terminal = record sample_terminal {
  scr = record sample { lines = sample_row ∷ sample_row ∷ (hole ∷ []) ∷ sample_row ∷ [] };
}

refresh_page-threw_example :
    EndsWhere
      (λ q. length q ≡ 3)
      (not (refresh 0 2 gap_terminal).io.threw)
      (refresh_page false 0 2 gap_terminal ([] ∷ [] ∷ [] ∷ []))
refresh_page-threw_example = refresh_page-threw false 0 2 gap_terminal ([] ∷ [] ∷ [] ∷ []) refl refl

-- There it throws.
gap_throws : (refresh 0 2 gap_terminal).io.threw ≡ true
unfolding refresh rows_are_whole row_is_whole whole_cells
gap_throws = refl
