-- ===== src/Rendering/ReadBack.antt =====
-- A row that `refresh` wrote, read back.
use genie_tangle.Rendering.Quotes.{LacksQuote, style_text-LacksQuote}
use genie_tangle.Rendering.Reader.{
  and_then, Glyph, Reader, read, in_quotes, outside, advance_in, glyphs_of, finished,
}
use genie_tangle.Rendering.Rows.{
  reversed, close_span, Look, styled, open_span, look_at, same_look, escaped_char, default_look,
  style_text, text_if, change_span, cells_html, row_html,
}
use genie_tangle.Prelude.{
  if◌then◌else◌, if◌then◌else◌, ◌++◌, ◌∷◌, Option, [], codes, refl, ◌<◌, ◌∙◌, ◌≡◌, true, ◌+◌,
  if◌then◌else◌, ap, ℕ, List, some, push, zero, none, append-nil, leb, arith, append_assoc, Bool,
  suc, get_elem?, Bool-cases, inl, inr, ◌==◌, sym, Ends, Outcome, not, Ends-map, ◌>>=◌, fault, ok,
}
use genie_tangle.Screen.{cell, Cell, Row, hole}

-- The tag that opens a span, without its brackets.
abbrev pub tag_of : Bool → Look → List ℕ
tag_of bb reversed = codes "span class=\"reverse-video\""
tag_of bb (styled datum) = codes "span style=\"" ++ push (style_text bb datum) b'"'

-- The default look stands in no span.
abbrev pub element_of : Bool → Look → Option (List ℕ)
element_of bb look = if same_look look default_look then none else some (tag_of bb look)

-- A space, and what lies below it, is shown as a space that does not break.
abbrev pub shown_char : ℕ → ℕ
shown_char ch = if leb ch 32 then 160 else ch

abbrev pub glyph_at : Bool → Option ℕ → ℕ → Option Cell → Glyph
glyph_at bb x i (some (cell datum ch)) = (element_of bb (look_at x i datum), shown_char ch)
glyph_at bb x i (some hole) = (none, 0)
glyph_at bb x i none = (none, 0)

-- The glyphs of `n` cells from the column `i` on.
abbrev pub glyphs_from : Bool → Option ℕ → ℕ → ℕ → Row → List Glyph
glyphs_from bb x zero i line = []
glyphs_from bb x (suc n) i line =
    glyph_at bb x i (get_elem? line i) ∷ glyphs_from bb x n (suc i) line

-- The columns from `i` on, `n` of them, hold cells.
abbrev pub HasCells : ℕ → ℕ → Row → Type 0
HasCells n i line =
    (k : ℕ) → k < n → (datum : ℕ) × (ch : ℕ) × (get_elem? line (i + k) ≡ some (cell datum ch))

through :
    (o : Option Reader) (f g h : Reader → Option Reader)
    → ((r : Reader) → f r ≡ and_then (g r) h)
    → and_then o f ≡ and_then (and_then o g) h
through none f g h e = refl
through (some r) f g h e = e r

read-append : (a b : List ℕ) (r : Reader) → read (a ++ b) r ≡ and_then (read a r) (read b)
unfolding read
read-append [] b r = refl
read-append (ch ∷ chs) b r =
    through (advance_in r.reading ch r) (read (chs ++ b)) (read chs) (read b) (read-append chs b)

same_look-eq : (a b : Look) → same_look a b ≡ true → a ≡ b
same_look-eq reversed reversed e = refl
same_look-eq reversed (styled b) e = absurd (ground arith)
same_look-eq (styled a) reversed e = absurd (ground arith)
same_look-eq (styled a) (styled b) e = ap styled (ground arith)

read-quoted :
    (text tag rest : List ℕ) (r : Reader)
    → LacksQuote text
    → read (text ++ rest) (record r { reading = in_quotes tag })
      ≡ read rest (record r { reading = in_quotes (tag ++ text) })
unfolding read
read-quoted [] tag rest r h = rw append-nil
read-quoted (ch ∷ chs) tag rest r (e, h) =
    rw e (read-quoted chs (push tag ch) rest r h ∙ rw append_assoc)

read-close :
    (tag rest : List ℕ) (gs : List Glyph)
    → read (close_span ++ rest) (outside (some tag) gs) ≡ read rest (outside none gs)
unfolding read
read-close tag rest gs = refl

read-open :
    (bb : Bool) (look : Look) (rest : List ℕ) (gs : List Glyph)
    → read (open_span bb look ++ rest) (outside none gs)
      ≡ read rest (outside (some (tag_of bb look)) gs)
unfolding read open_span
read-open bb reversed rest gs = refl
read-open bb (styled datum) rest gs =
    ap (λ (t : List ℕ). read (codes "<span style=\"" ++ t) (outside none gs))
      (append_assoc (style_text bb datum) (codes "\">") rest)
    ∙ read-quoted (style_text bb datum) (codes "span style=\"") (codes "\">" ++ rest)
        (outside none gs) (style_text-LacksQuote bb datum)

read-escaped :
    (ch : ℕ) (rest : List ℕ) (r : Option (List ℕ)) (gs : List Glyph)
    → read (escaped_char ch ++ rest) (outside r gs)
      ≡ read rest (outside r (push gs (r, shown_char ch)))
unfolding read escaped_char
read-escaped ch rest r gs = elim (Bool-cases (ch == b'&')) [
  | inl e ↦ let p : ch ≡ b'&' = ground arith in rw p refl
  | inr e ↦ elim (Bool-cases (ch == b'<')) [
    | inl f ↦ let p : ch ≡ b'<' = ground arith in rw p refl
    | inr f ↦ elim (Bool-cases (ch == b'>')) [
      | inl g ↦ let p : ch ≡ b'>' = ground arith in rw p refl
      | inr g ↦ elim (Bool-cases (leb ch 32)) [
        | inl h ↦ rw (e, f, g, h) refl
        | inr h ↦ rw (e, f, g, h, f, e) refl
      ]
    ]
  ]
]

read-leave :
    (bb : Bool) (attr : Look) (rest : List ℕ) (gs : List Glyph)
    → read
        (text_if (not (same_look attr default_look)) close_span ++ rest)
        (outside (element_of bb attr) gs)
      ≡ read rest (outside none gs)
read-leave bb attr rest gs = elim (Bool-cases (same_look attr default_look)) [
  | inl e ↦ rw e refl
  | inr e ↦ rw e (read-close (tag_of bb attr) rest gs)
]

read-enter :
    (bb : Bool) (look : Look) (rest : List ℕ) (gs : List Glyph)
    → read
        (text_if (not (same_look look default_look)) (open_span bb look) ++ rest)
        (outside none gs)
      ≡ read rest (outside (element_of bb look) gs)
read-enter bb look rest gs = elim (Bool-cases (same_look look default_look)) [
  | inl e ↦ rw e refl
  | inr e ↦ rw e (read-open bb look rest gs)
]

read-change :
    (bb : Bool) (attr look : Look) (rest : List ℕ) (gs : List Glyph)
    → read (change_span bb attr look ++ rest) (outside (element_of bb attr) gs)
      ≡ read rest (outside (element_of bb look) gs)
unfolding change_span
read-change bb attr look rest gs = elim (Bool-cases (same_look look attr)) [
  | inl e ↦
      rw e (
        ap (λ (l : Look). read rest (outside (element_of bb l) gs))
          (sym (same_look-eq look attr e)))
  | inr e ↦
      rw (e, append_assoc)
        (read-leave bb attr
            (text_if (not (same_look look default_look)) (open_span bb look) ++ rest) gs
          ∙ read-enter bb look rest gs)
]

-- What a round of the loop writes, read with the rest of the row.
read-cell :
    (bb : Bool) (attr look : Look) (ch : ℕ) (rest : List ℕ) (gs : List Glyph)
    → read (change_span bb attr look ++ (escaped_char ch ++ rest)) (outside (element_of bb attr) gs)
      ≡ read rest (outside (element_of bb look) (push gs (element_of bb look, shown_char ch)))
read-cell bb attr look ch rest gs =
    read-change bb attr look (escaped_char ch ++ rest) gs
    ∙ read-escaped ch rest (element_of bb look) gs

-- The loop ends, and what it writes reads as the glyphs `seen`.
abbrev ReadsAs : Bool → Look → List Glyph → List Glyph → Outcome (List ℕ) → Type 0
ReadsAs bb attr gs seen m =
    Ends (λ html. read html (outside (element_of bb attr) gs) ≡ some (outside none (gs ++ seen))) m

HasCells-next : (n i : ℕ) (line : Row) → HasCells (suc n) i line → HasCells n (suc i) line
HasCells-next n i line h k p =
    let (datum, ch, e) = h (suc k) (omega arith) in
    let q : suc i + k ≡ i + suc k = omega arith in (datum, ch, rw q e)

-- One round, in front of the rounds that follow.
round-reads :
    (bb : Bool) (attr look : Look) (ch : ℕ) (gs seen : List Glyph) (m : Outcome (List ℕ))
    → ReadsAs bb look (push gs (element_of bb look, shown_char ch)) seen m
    → ReadsAs bb attr gs
        ((element_of bb look, shown_char ch) ∷ seen)
        (m >>= λ rest. ok (change_span bb attr look ++ (escaped_char ch ++ rest)))
round-reads bb attr look ch gs seen (ok html) r =
    read-cell bb attr look ch html gs
    ∙ r
    ∙ ap (λ (g : List Glyph). some (outside none g))
        (append_assoc gs ((element_of bb look, shown_char ch) ∷ []) seen)
round-reads bb attr look ch gs seen (fault e) r = absurd r

cells_html-reads :
    (bb : Bool) (x : Option ℕ) (n i : ℕ) (attr : Look) (line : Row) (gs : List Glyph)
    → HasCells n i line
    → ReadsAs bb attr gs (glyphs_from bb x n i line) (cells_html bb x n i attr line)
unfolding cells_html read
cells_html-reads bb x zero i attr line gs h =
    rw append-nil (rw append-nil at (read-leave bb attr [] gs))
cells_html-reads bb x (suc n) i attr line gs h =
    let (datum, ch, e) = h 0 (omega arith) in
    let q : i + 0 ≡ i = omega arith in
    let f : get_elem? line i ≡ some (cell datum ch) = rw q at e in
    let look = look_at x i datum in
    let rest =
      cells_html-reads bb x n (suc i) look line (push gs (element_of bb look, shown_char ch))
        (HasCells-next n i line h) in
    rw (cells_html, f)
      (round-reads bb attr look ch gs (glyphs_from bb x n (suc i) line)
        (cells_html bb x n (suc i) look line) rest)

-- `refresh` writes a line that has a cell in each column of the screen as HTML that a reader takes
-- apart again: every span is closed, and the reader sees just the characters of the cells, with a
-- space for what lies below a space, each in the span of its attribute or of the cursor. No
-- character that a program prints opens a tag or a reference.
pub row_html-reads :
    (broken_bold : Bool) (x : Option ℕ) (width : ℕ) (line : Row)
    → HasCells width 0 line
    → Ends
        (λ html. glyphs_of html ≡ some (glyphs_from broken_bold x width 0 line))
        (row_html broken_bold x width line)
unfolding row_html glyphs_of
row_html-reads broken_bold x width line h =
    Ends-map _ _ (cells_html broken_bold x width 0 default_look line)
      (cells_html-reads broken_bold x width 0 default_look line [] h) (λ html e. ap finished e)
