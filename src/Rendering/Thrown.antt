-- ===== src/Rendering/Thrown.antt =====
-- Where `refresh` throws, and what a terminal notes of it.

use genie_tangle.Terminal.{refresh, Terminal}
use genie_tangle.Rendering.Refresh.{
  refresh_page, refresh_row, put_row, line_html, refresh_rows, Page, cursor_column,
}
use genie_tangle.Rendering.Rows.{Look, cells_html, default_look, row_html, look_at}
use genie_tangle.Screen.{rows_are_whole, hole, row_is_whole, whole_cells, Row, cell}
use genie_tangle.Prelude.{
  length-set, ◌||◌, ◌+◌, drop, fault, get_elem?, some, zero, ◌∙◌, subst, get_or, arith, Option,
  get_elem?-none, sym, ◌∷◌, length, none, suc, ltb→lt, ok, ◌-◌, ltb, inr, not, [], ◌>>=◌,
  get_elem?_total, false, List, refl, Bool, Outcome, ap, ◌&&◌, type_error, inl, ◌≡◌, true, ℕ,
  Bool-cases,
}

-- The run ends with the property where the test holds, and throws where it does not.
abbrev pub EndsWhere {ℓ} : {A : Type ℓ} → (A → Type 0) → Bool → Outcome A → Type 0
EndsWhere P true (ok a) = P a
EndsWhere P true (fault e) = ⊥
EndsWhere P false (ok a) = ⊥
EndsWhere P false (fault e) = e ≡ type_error

EndsWhere-bind :
    {A B : Type 0} (P : A → Type 0) (Q : B → Type 0) (a b : Bool) (m : Outcome A)
    (f : A → Outcome B)
    → EndsWhere P a m
    → ((x : A) → P x → EndsWhere Q b (f x))
    → EndsWhere Q (a && b) (m >>= f)
EndsWhere-bind P Q true b (ok x) f h k = k x h
EndsWhere-bind P Q true b (fault e) f h k = absurd h
EndsWhere-bind P Q false b (ok x) f h k = absurd h
EndsWhere-bind P Q false b (fault e) f h k = h

abbrev Any : {A : Type 0} → A → Type 0
Any a = Unit {0}

get_elem?-drop : (line : Row) (i : ℕ) → get_elem? line i ≡ get_elem? (drop i line) 0
get_elem?-drop [] zero = refl
get_elem?-drop [] (suc i) = refl
get_elem?-drop (c ∷ line) zero = refl
get_elem?-drop (c ∷ line) (suc i) = get_elem?-drop line i

drop-suc : (line : Row) (i : ℕ) → drop (suc i) line ≡ drop 1 (drop i line)
drop-suc [] zero = refl
drop-suc [] (suc i) = refl
drop-suc (c ∷ line) zero = refl
drop-suc (c ∷ line) (suc i) = drop-suc line i

-- The cells of a line from the column `i` on, which are `rest`.
cells_html-whole :
    (bb : Bool) (x : Option ℕ) (n i : ℕ) (attr : Look) (line rest : Row)
    → drop i line ≡ rest
    → EndsWhere Any (whole_cells n rest) (cells_html bb x n i attr line)
unfolding cells_html whole_cells
cells_html-whole bb x zero i attr line rest e = tt
cells_html-whole bb x (suc n) i attr line [] e =
    let there : get_elem? line i ≡ none =
      get_elem?-drop line i ∙ ap (λ (r : Row). get_elem? r 0) e in
    rw (cells_html, there) refl
cells_html-whole bb x (suc n) i attr line (hole ∷ rest) e =
    let there : get_elem? line i ≡ some hole =
      get_elem?-drop line i ∙ ap (λ (r : Row). get_elem? r 0) e in
    rw (cells_html, there) refl
cells_html-whole bb x (suc n) i attr line (cell datum ch ∷ rest) e =
    let there : get_elem? line i ≡ some (cell datum ch) =
      get_elem?-drop line i ∙ ap (λ (r : Row). get_elem? r 0) e in
    let behind : drop (suc i) line ≡ rest = drop-suc line i ∙ ap (λ (r : Row). drop 1 r) e in
    rw (cells_html, there)
      (followed _ (whole_cells n rest) (cells_html bb x n (suc i) (look_at x i datum) line)
        (cells_html-whole bb x n (suc i) (look_at x i datum) line rest behind))
  where
    followed :
        (f : List ℕ → List ℕ) (b : Bool) (m : Outcome (List ℕ))
        → EndsWhere Any b m
        → EndsWhere Any b (m >>= λ r. ok (f r))
    followed f true (ok r) h = tt
    followed f true (fault d) h = absurd h
    followed f false (ok r) h = absurd h
    followed f false (fault d) h = h

line_html-whole :
    (bb : Bool) (x : Option ℕ) (width k : ℕ) (lines : List Row)
    → EndsWhere Any
        (whole_cells width (get_or lines k []))
        (line_html bb x width (get_elem? lines k))
unfolding row_html
line_html-whole bb x width k [] = cells_html-whole bb x width 0 default_look [] [] refl
line_html-whole bb x width zero (line ∷ lines) =
    cells_html-whole bb x width 0 default_look line line refl
line_html-whole bb x width (suc k) (line ∷ lines) = line_html-whole bb x width k lines

-- The page has the rows of the screen.
abbrev HasRows : ℕ → Page → Type 0
HasRows n page = length page ≡ n

put_row-whole :
    (y : ℕ) (out : List ℕ) (page : Page)
    → EndsWhere (HasRows (length page)) (ltb y (length page)) (put_row y out page)
unfolding put_row
put_row-whole y out page = elim (Bool-cases (ltb y (length page))) [
  | inl e ↦
      let (old, there) = get_elem?_total page y (ltb→lt y (length page) e) in
      rw (e, put_row, there) (length-set page y out)
  | inr e ↦
      let there : get_elem? page y ≡ none = get_elem?-none page y (ground arith) in
      rw (e, put_row, there) refl
]

refresh_row-whole :
    (bb : Bool) (y : ℕ) (t : Terminal) (page : Page)
    → length page ≡ t.scr.rows
    → EndsWhere (HasRows t.scr.rows) (row_is_whole y t.scr) (refresh_row bb y t page)
unfolding refresh_row row_is_whole
refresh_row-whole bb y t page h =
    subst
      (λ (n : ℕ).
        EndsWhere (HasRows n)
          (ltb y n && whole_cells t.scr.cols (get_or t.scr.lines (y + t.scr.ydisp) []))
          (refresh_row bb y t page))
      h
      (turned (ltb y (length page))
        (whole_cells t.scr.cols (get_or t.scr.lines (y + t.scr.ydisp) []))
        (line_html bb (cursor_column y t) t.scr.cols (get_elem? t.scr.lines (y + t.scr.ydisp)))
        (λ out. put_row y out page)
        (line_html-whole bb (cursor_column y t) t.scr.cols (y + t.scr.ydisp) t.scr.lines)
        (λ out. put_row-whole y out page))
  where
    turned :
        (a b : Bool) (m : Outcome (List ℕ)) (f : List ℕ → Outcome Page)
        → EndsWhere Any b m
        → ((out : List ℕ) → EndsWhere (HasRows (length page)) a (f out))
        → EndsWhere (HasRows (length page)) (a && b) (m >>= f)
    turned true b m f h k = turned_on b m h
      where
        turned_on :
            (b : Bool) (m : Outcome (List ℕ))
            → EndsWhere Any b m
            → EndsWhere (HasRows (length page)) b (m >>= f)
        turned_on true (ok out) h = k out
        turned_on true (fault e) h = absurd h
        turned_on false (ok out) h = absurd h
        turned_on false (fault e) h = h
    turned false true (ok out) f h k = k out
    turned false true (fault e) f h k = absurd h
    turned false false (ok out) f h k = absurd h
    turned false false (fault e) f h k = h

refresh_rows-whole :
    (bb : Bool) (n y : ℕ) (t : Terminal) (page : Page)
    → length page ≡ t.scr.rows
    → EndsWhere (HasRows t.scr.rows) (rows_are_whole n y t.scr) (refresh_rows bb n y t page)
unfolding refresh_rows rows_are_whole
refresh_rows-whole bb zero y t page h = h
refresh_rows-whole bb (suc n) y t page h =
    EndsWhere-bind (HasRows t.scr.rows) (HasRows t.scr.rows) (row_is_whole y t.scr)
      (rows_are_whole n (suc y) t.scr) (refresh_row bb y t page) (refresh_rows bb n (suc y) t)
      (refresh_row-whole bb y t page h) (λ mid k. refresh_rows-whole bb n (suc y) t mid k)

-- On a page that has the rows of the screen, `refresh` of any rows, in any state of the buffer, throws a
-- `TypeError` just where the terminal notes it, which is where a row of the range is no row of the
-- screen or has a column without a cell; where it does not throw, the page has as many rows.
pub refresh_page-threw :
    (broken_bold : Bool) (start end : ℕ) (t : Terminal) (page : Page)
    → length page ≡ t.scr.rows
    → t.io.threw ≡ false
    → EndsWhere
        (λ q. length q ≡ t.scr.rows)
        (not (refresh start end t).io.threw)
        (refresh_page broken_bold start end t page)
unfolding refresh_page refresh
refresh_page-threw bb start end t page h c =
    let w = rows_are_whole (end + 1 - start) start t.scr in
    let same : not (t.io.threw || not w) ≡ w = elim (Bool-cases w) [
      | inl e ↦ rw (c, e) refl
      | inr e ↦ rw (c, e) refl
    ] in
    subst (λ (b : Bool). EndsWhere (HasRows t.scr.rows) b (refresh_page bb start end t page))
      (sym same) (refresh_rows-whole bb (end + 1 - start) start t page h)
