-- ===== src/Mouse/Reader.antt =====
-- What a program reads of a mouse report: decimal numbers between semicolons, or characters in UTF-8.
-- Written without regard to the code that sends them.
use genie_tangle.Prelude.{
  if◌then◌else◌, ℕ, if◌then◌else◌, ltb, ◌*◌, none, is_digit, leb, List, if◌then◌else◌, ◌∷◌, codes,
  Option, [], some, ◌-◌, ◌&&◌, true, false, ◌==◌, ◌+◌,
}

-- The digits at the front, behind those of `n`.
abbrev pub read_number : ℕ → List ℕ → ℕ × List ℕ
read_number n [] = (n, [])
read_number n (c ∷ cs) = elim (is_digit c) [
  | true ↦ read_number (n * 10 + (c - 48)) cs
  | false ↦ (n, c ∷ cs)
]

-- The text behind a text at its front.
abbrev pub behind_text : List ℕ → List ℕ → Option (List ℕ)
behind_text [] text = some text
behind_text (a ∷ as') [] = none
behind_text (a ∷ as') (c ∷ cs) = elim (a == c) [ true ↦ behind_text as' cs | false ↦ none ]

-- A button, a column, a row and the letter behind them.
pub record Heard : Type 0 where
  pub button : ℕ
  pub column : ℕ
  pub row : ℕ
  pub letter : List ℕ

abbrev pub on_some : {A B : Type 0} → Option A → (A → Option B) → Option B
on_some none f = none
on_some (some a) f = f a

abbrev pub read_three : List ℕ → Option Heard
read_three text =
    let (b, r) = read_number 0 text in
    on_some (behind_text (b';' ∷ []) r) (λ r.
      let (c, r) = read_number 0 r in
      on_some (behind_text (b';' ∷ []) r) (λ r.
        let (d, r) = read_number 0 r in
        some (record { button = b; column = c; row = d; letter = r })))

-- `ESC [ < Cb ; Cx ; Cy M` or `m`, and `ESC [ Cb ; Cx ; Cy M`
abbrev pub read_sgr : List ℕ → Option Heard
read_sgr text = on_some (behind_text (27 ∷ codes "[<") text) read_three

abbrev pub read_urxvt : List ℕ → Option Heard
read_urxvt text = on_some (behind_text (27 ∷ codes "[") text) read_three

-- A character of one byte or of two. A code below 128 is not read in two bytes: such an overlong form,
-- of which the first byte is 192 or 193, is no UTF-8.
abbrev pub read_character : List ℕ → Option (ℕ × List ℕ)
read_character [] = none
read_character (b ∷ []) = if ltb b 128 then some (b, []) else none
read_character (b ∷ c ∷ bs) =
    if ltb b 128
    then some (b, c ∷ bs)
    else if leb 194 b && (ltb b 224 && (leb 128 c && ltb c 192))
    then some ((b - 192) * 64 + (c - 128), bs)
    else none

-- `ESC [ M Cb Cx Cy`
abbrev pub read_bytes : List ℕ → Option Heard
read_bytes text = on_some (behind_text (27 ∷ codes "[M") text) (λ r.
    on_some (read_character r) (λ p. on_some (read_character (p.1)) (λ q.
      on_some (read_character (q.1))
        (λ s. some (record { button = p.0; column = q.0; row = s.0; letter = s.1 })))))
