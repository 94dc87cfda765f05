-- ===== src/Mouse/Heard.antt =====
-- A report that was sent, read as a program reads it.

use genie_tangle.Mouse.Bytes.{encode}
use genie_tangle.Mouse.Buttons.{Position}
use genie_tangle.Mouse.Reader.{
  read_urxvt, read_character, read_sgr, read_number, read_three, read_bytes,
}
use genie_tangle.Mouse.Reports.{urxvt_report, is_release, sgr_report, byte_report}
use genie_tangle.Prelude.{
  suc, is_digit, arith, ◌/◌, List, zero, decimal_within, ◌*◌, if◌then◌else◌, some, false, ◌∷◌, ltb,
  decimal, ◌++◌, ◌%◌, ◌-◌, ℕ, if◌then◌else◌, inl, Bool-cases, true, append_assoc, if◌then◌else◌,
  ◌∙◌, ◌<◌, inr, refl, ◌≡◌, ◌+◌, [], ap, ltb→lt, ◌==◌, leb, append-nil, ◌||◌, ◌≤◌, none, Bool,
}

read_digit :
    (n d : ℕ) (rest : List ℕ)
    → d < 10
    → read_number n ((d + 48) ∷ rest) ≡ read_number (n * 10 + d) rest
read_digit n d rest h =
    let e : is_digit (d + 48) ≡ true = ground arith in
    let v : d + 48 - 48 ≡ d = omega arith in rw (read_number, e, v) refl

read_end : (n c : ℕ) (rest : List ℕ) → is_digit c ≡ false → read_number n (c ∷ rest) ≡ (n, c ∷ rest)
read_end n c rest e = rw (read_number, e) refl

zero_times : {n : ℕ} → 0 * 10 + n ≡ n
zero_times = omega arith

read_decimal_within :
    (f n : ℕ) (rest : List ℕ)
    → n < f
    → read_number 0 (decimal_within f n ++ rest) ≡ read_number n rest
unfolding decimal_within
read_decimal_within zero n rest h = absurd (omega (arith, h))
read_decimal_within (suc f) n rest h = elim (Bool-cases (ltb n 10)) [
  | inl e ↦
      rw e (read_digit 0 n rest (ltb→lt n 10 e) ∙ ap (λ (k : ℕ). read_number k rest) zero_times)
  | inr e ↦
      let v : n / 10 * 10 + n % 10 ≡ n = omega arith in
      rw (e, append_assoc (decimal_within f (n / 10)) ((n % 10 + 48) ∷ []) rest)
        (read_decimal_within f (n / 10) ((n % 10 + 48) ∷ rest) (ground arith)
          ∙ read_digit (n / 10) (n % 10) rest (omega arith)
          ∙ ap (λ (k : ℕ). read_number k rest) v)
]

-- A number, in front of what is no digit.
read_decimal :
    (n c : ℕ) (rest : List ℕ)
    → is_digit c ≡ false
    → read_number 0 (decimal n ++ (c ∷ rest)) ≡ (n, c ∷ rest)
unfolding decimal
read_decimal n c rest e =
    read_decimal_within (suc n) n (c ∷ rest) (omega arith) ∙ read_end n c rest e

three_read :
    (b c d letter : ℕ)
    → is_digit letter ≡ false
    → read_three (decimal b ++ (b';' ∷ (decimal c ++ (b';' ∷ (decimal d ++ (letter ∷ []))))))
      ≡ some (record { button = b; column = c; row = d; letter = letter ∷ [] })
three_read b c d letter e =
    rw
      (
        read_decimal b b';' (decimal c ++ (b';' ∷ (decimal d ++ (letter ∷ [])))) refl,
        read_decimal c b';' (decimal d ++ (letter ∷ [])) refl,
        read_decimal d letter [] e,
      )
      refl

-- The button without the two bits of a release.
abbrev pub without_release : ℕ → ℕ
without_release button = if is_release button then button - 3 else button

abbrev pub final_letter : ℕ → List ℕ
final_letter button = if is_release button then b'm' ∷ [] else b'M' ∷ []

-- A program that reads a report in the form of SGR gets the button, with an `m` for a release, and
-- the column and the row counted from 0; in the form of urxvt it gets the button as it is, and the
-- column and the row counted from 1.
-- The `m` of a release is sent by SGR alone: the `T` of a motion, which a comment of the code has for
-- urxvt, never is; and the button keeps the 32 that it is given.
pub report-heard :
    (button : ℕ) (pos : Position)
    → (read_sgr (sgr_report button pos)
        ≡ some (record {
          button = without_release button;
          column = pos.x - 32;
          row = pos.y - 32;
          letter = final_letter button;
        }))
      × (read_urxvt (urxvt_report button pos)
          ≡ some (record {
            button = button;
            column = pos.x - 32 + 1;
            row = pos.y - 32 + 1;
            letter = b'M' ∷ [];
          }))
unfolding sgr_report urxvt_report
report-heard button pos = (
  elim (Bool-cases (is_release button)) [
    | inl e ↦ rw e (three_read (button - 3) (pos.x - 32) (pos.y - 32) b'm' refl)
    | inr e ↦ rw e (three_read button (pos.x - 32) (pos.y - 32) b'M' refl)
  ],
  three_read button (pos.x - 32 + 1) (pos.y - 32 + 1) b'M' refl,
)

-- One number, with no byte in front: below 127 as it is, and else in two bytes.
one_byte : (b : ℕ) (rest : List ℕ) → b < 128 → read_character (b ∷ rest) ≡ some (b, rest)
one_byte b [] h = ground arith
one_byte b (c ∷ cs) h = ground arith

two_bytes :
    (ch : ℕ) (rest : List ℕ)
    → 128 ≤ ch
    → ch < 2048
    → read_character ((192 + ch / 64) ∷ (128 + ch % 64) ∷ rest) ≡ some (ch, rest)
two_bytes ch rest k h =
    let a : ltb (192 + ch / 64) 128 ≡ false = ground arith in
    let b : leb 194 (192 + ch / 64) ≡ true = ground arith in
    let c : ltb (192 + ch / 64) 224 ≡ true = ground arith in
    let d : leb 128 (128 + ch % 64) ≡ true = ground arith in
    let e : ltb (128 + ch % 64) 192 ≡ true = ground arith in
    let v : (192 + ch / 64 - 192) * 64 + (128 + ch % 64 - 128) ≡ ch = omega arith in
    rw (a, b, c, d, e, v) refl

-- 127 is sent in two bytes, which is no character.
read-encode :
    (ch : ℕ) (rest : List ℕ)
    → ch < 2047
    → read_character (encode true ch ++ rest) ≡ (if ch == 127 then none else some (ch, rest))
unfolding encode
read-encode ch rest h =
    let e : (ch == 2047) ≡ false = ground arith in
    let f : ltb 2047 ch ≡ false = ground arith in
    elim (Bool-cases (ltb ch 127)) [
      | inl g ↦
          let d : (ch == 127) ≡ false = ground arith in
          rw (e, g, d) (one_byte ch rest (ground arith))
      | inr g ↦ elim (Bool-cases (ch == 127)) [
        | inl d ↦ let v : ch ≡ 127 = ground arith in rw v refl
        | inr d ↦ rw (e, g, f, d) (two_bytes ch rest (ground arith) (omega (arith, h)))
      ]
    ]

-- One of the three numbers of a report is 127.
abbrev pub has_127 : ℕ → Position → Bool
has_127 button pos = button == 127 || (pos.x == 127 || pos.y == 127)

-- A program that reads a report of bytes in UTF-8 gets back the button, the column and the row, if
-- each is below 2047 and none is 127, and reads nothing if one is 127.
pub byte_report-heard :
    (button : ℕ) (pos : Position)
    → button < 2047
    → pos.x < 2047
    → pos.y < 2047
    → read_bytes (byte_report true button pos) ≡ (
        if has_127 button pos
        then none
        else some (record { button = button; column = pos.x; row = pos.y; letter = [] }))
unfolding byte_report
byte_report-heard button pos h k l =
    let last : read_character (encode true pos.y)
        ≡ (if pos.y == 127 then none else some (pos.y, [])) =
      rw append-nil at (read-encode pos.y [] l) in
    let first = read-encode button (encode true pos.x ++ encode true pos.y) h in
    let second = read-encode pos.x (encode true pos.y) k in
    elim (Bool-cases (button == 127)) [
      | inl d ↦ rw (first, d) refl
      | inr d ↦ elim (Bool-cases (pos.x == 127)) [
        | inl e ↦ rw (first, d, second, e) refl
        | inr e ↦ elim (Bool-cases (pos.y == 127)) [
          | inl f ↦ rw (first, d, second, e, last, f) refl
          | inr f ↦ rw (first, d, second, e, last, f) refl
        ]
      ]
    ]
