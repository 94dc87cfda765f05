-- ===== src/Rendering/Repainted.antt =====
-- The rows that `refresh` writes, and those that it leaves.
use genie_tangle.Rendering.Rows.{row_html}
use genie_tangle.Screen.Valid.{IsValid}
use genie_tangle.Rendering.ReadBack.{glyphs_from, row_html-reads, HasCells}
use genie_tangle.Terminal.{Terminal}
use genie_tangle.Rendering.Refresh.{
  refresh_row, refresh_rows, cursor_column, refresh_page, Page, put_row,
}
use genie_tangle.Screen.{Screen, Row}
use genie_tangle.Rendering.Reader.{glyphs_of}
use genie_tangle.Prelude.{
  some, set, length, ◌≡◌, ◌≤◌, get_elem?, ◌∙◌, Ends-bind, Bool, List, ◌<◌, ◌+◌, suc, ℕ,
  get_elem?-set_self, arith, Ends-map, Ends, get_elem?-set_ne, length-set, ◌-◌, zero,
  get_elem?_total, refl, subst, Bool-cases, inr, ◌==◌, inl,
}

-- Every line of the buffer has a cell in each column of the screen.
abbrev pub IsFilled : Screen → Type 0
IsFilled s = (i : ℕ) (line : Row) → get_elem? s.lines i ≡ some line → HasCells s.cols 0 line

-- The row `y` of the page shows the line of the buffer that the view has there.
abbrev pub ShowsLine : Bool → Terminal → ℕ → Page → Type 0
ShowsLine bb t y page =
    (line : Row) × (html : List ℕ) × (get_elem? t.scr.lines (y + t.scr.ydisp) ≡ some line)
    × (get_elem? page y ≡ some html)
    × (glyphs_of html ≡ some (glyphs_from bb (cursor_column y t) t.scr.cols 0 line))

-- The page after the rows from `lo` up to `hi`, without it, were written.
pub record IsRepainted (bb : Bool) (lo hi : ℕ) (t : Terminal) (old page : Page) : Type 0 where
  pub same_length : length page ≡ length old
  pub shown : (y : ℕ) → lo ≤ y → y < hi → ShowsLine bb t y page
  pub above : (y : ℕ) → y < lo → get_elem? page y ≡ get_elem? old y
  pub below : (y : ℕ) → hi ≤ y → get_elem? page y ≡ get_elem? old y

module _ (bb : Bool) (t : Terminal) (v : IsValid t.scr) (f : IsFilled t.scr) where
  line_there :
      (y : ℕ)
      → y < t.scr.rows
      → (line : Row) × (get_elem? t.scr.lines (y + t.scr.ydisp) ≡ some line)
  line_there y h = get_elem?_total t.scr.lines (y + t.scr.ydisp) (omega (arith, v.full, v.disp_in))

  put_row-IsRepainted :
      (y : ℕ) (html : List ℕ) (line : Row) (page : Page)
      → y < length page
      → get_elem? t.scr.lines (y + t.scr.ydisp) ≡ some line
      → glyphs_of html ≡ some (glyphs_from bb (cursor_column y t) t.scr.cols 0 line)
      → Ends (IsRepainted bb y (suc y) t page) (put_row y html page)
  unfolding put_row
  put_row-IsRepainted y html line page h e g =
      let (old, o) = get_elem?_total page y h in
      rw (put_row, o)
        (record {
          same_length = length-set page y html;
          shown = λ z p q.
              let r : y ≡ z = omega arith in
              subst (λ (z : ℕ). ShowsLine bb t z (set page y html)) r
                (line, html, e, get_elem?-set_self page y html h, g);
          above = λ z p. get_elem?-set_ne page html (λ (r : y ≡ z). omega arith);
          below = λ z p. get_elem?-set_ne page html (λ (r : y ≡ z). omega arith);
        })

  refresh_row-IsRepainted :
      (y : ℕ) (page : Page)
      → y < t.scr.rows
      → y < length page
      → Ends (IsRepainted bb y (suc y) t page) (refresh_row bb y t page)
  unfolding refresh_row
  refresh_row-IsRepainted y page h k =
      let (line, e) = line_there y h in
      rw (refresh_row, e)
        (Ends-bind _ (IsRepainted bb y (suc y) t page)
          (row_html bb (cursor_column y t) t.scr.cols line) (λ out. put_row y out page)
          (row_html-reads bb (cursor_column y t) t.scr.cols line (f (y + t.scr.ydisp) line e))
          (λ html g. put_row-IsRepainted y html line page k e g))

  -- One row, and then those below it.
  IsRepainted-next :
      (y hi : ℕ) (old mid page : Page)
      → suc y ≤ hi
      → IsRepainted bb y (suc y) t old mid
      → IsRepainted bb (suc y) hi t mid page
      → IsRepainted bb y hi t old page
  IsRepainted-next y hi old mid page h p q = record {
    same_length = q.same_length ∙ p.same_length;
    shown = λ z a b. elim (Bool-cases (z == y)) [
      | inl e ↦
          let r : z ≡ y = ground arith in
          let (line, html, l, m, g) = p.shown z a (omega arith) in
          (line, html, l, q.above z (omega arith) ∙ m, g)
      | inr e ↦ q.shown z (ground arith) b
    ];
    above = λ z r. q.above z (omega arith) ∙ p.above z r;
    below = λ z r. q.below z r ∙ p.below z (omega arith);
  }

  refresh_rows-IsRepainted :
      (n y : ℕ) (page : Page)
      → y + n ≤ t.scr.rows
      → y + n ≤ length page
      → Ends (IsRepainted bb y (y + n) t page) (refresh_rows bb n y t page)
  unfolding refresh_rows
  refresh_rows-IsRepainted zero y page h k = record {
    same_length = refl;
    shown = λ z p q. absurd (omega arith);
    above = λ z p. refl;
    below = λ z p. refl;
  }
  refresh_rows-IsRepainted (suc n) y page h k =
      Ends-bind (IsRepainted bb y (suc y) t page) (IsRepainted bb y (y + suc n) t page)
        (refresh_row bb y t page) (refresh_rows bb n (suc y) t)
        (refresh_row-IsRepainted y page (omega arith) (omega arith))
        (λ mid p.
          let e : suc y + n ≡ y + suc n = omega arith in
          Ends-map _ _ (refresh_rows bb n (suc y) t mid)
            (subst
              (λ (hi : ℕ). Ends (IsRepainted bb (suc y) hi t mid) (refresh_rows bb n (suc y) t mid))
              e
              (refresh_rows-IsRepainted n (suc y) mid (omega arith) (omega (arith, p.same_length))))
            (λ done q. IsRepainted-next y (y + suc n) page mid done (omega arith) p q))

-- Where the buffer is valid and filled and the page has the rows of the screen, `refresh` of rows of
-- the screen ends, throws nowhere, makes each of the rows show just the line of the buffer that the
-- view has there, with the cursor where it is to be seen, and leaves the other rows of the page.
pub refresh_page-IsRepainted :
    (broken_bold : Bool) (start end : ℕ) (t : Terminal) (page : Page)
    → IsValid t.scr
    → IsFilled t.scr
    → length page ≡ t.scr.rows
    → start ≤ end
    → end < t.scr.rows
    → Ends
        (IsRepainted broken_bold start (suc end) t page)
        (refresh_page broken_bold start end t page)
unfolding refresh_page
refresh_page-IsRepainted broken_bold start end t page v f e p q =
    let r : start + (end + 1 - start) ≡ suc end = omega arith in
    subst
      (λ (hi : ℕ).
        Ends (IsRepainted broken_bold start hi t page)
          (refresh_rows broken_bold (end + 1 - start) start t page))
      r
      (refresh_rows-IsRepainted broken_bold t v f (end + 1 - start) start page (omega arith)
        (omega arith))
