-- ===== src/Prelude/Text.antt =====
-- Texts as lists of character codes, and numbers in decimal.
use Prim.Native.Nat.{ℕ, zero, suc, ◌+◌, ◌/◌, ◌%◌}
use Prim.Native.Char.{code}
use Prim.Native.String.{String}
use mathlib.Core.Bool.{Bool, true, false, ◌&&◌}
use mathlib.Core.List.{List, [], ◌∷◌, ◌++◌}
use genie_tangle.Prelude.Tests.{ltb, leb, ◌==◌, if◌then◌else◌}

-- The codes of a text. `String` has its own `[]` and `∷`.
abbrev pub codes : String → List ℕ
codes String.[] = []
codes (String.◌∷◌ c s) = code c ∷ codes s

abbrev pub text_eq : List ℕ → List ℕ → Bool
text_eq [] [] = true
text_eq [] (b ∷ bs) = false
text_eq (a ∷ as') [] = false
text_eq (a ∷ as') (b ∷ bs) = a == b && text_eq as' bs

abbrev pub is_empty : List ℕ → Bool
is_empty [] = true
is_empty (a ∷ as') = false

-- `text.indexOf(start) === 0`, as `starts_with start text`
abbrev pub starts_with : List ℕ → List ℕ → Bool
starts_with [] text = true
starts_with (a ∷ as') [] = false
starts_with (a ∷ as') (b ∷ bs) = a == b && starts_with as' bs

abbrev pub is_digit : ℕ → Bool
is_digit ch = leb b'0' ch && leb ch b'9'

-- A number as JavaScript concatenates it to a text. Each round divides by ten, so that `suc n`
-- rounds are enough for `n`.
unfoldable pub decimal_within : ℕ → ℕ → List ℕ
decimal_within zero n = []
decimal_within (suc f) n =
    let rest = decimal_within f (n / 10) in
    if ltb n 10 then (n + 48) ∷ [] else rest ++ ((n % 10 + 48) ∷ [])

unfoldable pub decimal : ℕ → List ℕ
decimal n = decimal_within (suc n) n
