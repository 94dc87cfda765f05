-- ===== src/Mouse/Bytes.antt =====
-- `encode`: one number of a mouse report as the codes that are pushed.
use genie_tangle.Prelude.{
  Bool, List, [], ◌/◌, ltb, if◌then◌else◌, ◌+◌, ◌==◌, ◌∷◌, if◌then◌else◌, not, ◌%◌, if◌then◌else◌,
  ℕ,
}

unfoldable pub encode : Bool → ℕ → List ℕ
encode utf8 ch =
    if not utf8
    then (if ch == 255 then 0 ∷ [] else (if ltb 127 ch then 127 else ch) ∷ [])
    else if ch == 2047
    then 0 ∷ []
    else if ltb ch 127
    then ch ∷ []
    else let c = if ltb 2047 ch then 2047 else ch in
      -- `0xC0 | (ch >> 6)` and `0x80 | (ch & 0x3F)`: the bits do not meet
      (192 + c / 64) ∷ (128 + c % 64) ∷ []
