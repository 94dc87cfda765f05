-- ===== src/Terminal/Attr.antt =====
-- `charAttributes`. An attribute is `flags << 18 | fg << 9 | bg`, a number below 2 ^ 21; the masks
-- and shifts are written as quotients and remainders, which agree with them on such numbers.
use genie_tangle.Prelude.{
  ℕ, ◌+◌, ◌-◌, ◌*◌, ◌/◌, ◌%◌, Bool, true, false, List, [], ◌∷◌, leb, ◌==◌, ◌&&◌, ◌||◌,
  if◌then◌else◌,
}
use genie_tangle.Screen.{Screen, def_attr}

-- `a & 0x1ff`, `(a >> 9) & 0x1ff`, `a >> 18`
abbrev pub bg_of : ℕ → ℕ
bg_of a = a % 512

abbrev pub fg_of : ℕ → ℕ
fg_of a = a / 512 % 512

abbrev pub flags_of : ℕ → ℕ
flags_of a = a / 262144

-- `(a & ~(0x1ff << 9)) | (c << 9)`
unfoldable pub set_fg : ℕ → ℕ → ℕ
set_fg c a = a / 262144 * 262144 + c * 512 + a % 512

-- `(a & ~0x1ff) | c`
unfoldable pub set_bg : ℕ → ℕ → ℕ
set_bg c a = a / 512 * 512 + c

-- `a | (bit << 18)` and `a & ~(bit << 18)`, for `bit` 1, 2 or 4
unfoldable pub has_flag : ℕ → ℕ → Bool
has_flag bit a = flags_of a / bit % 2 == 1

unfoldable pub set_flag : ℕ → ℕ → ℕ
set_flag bit a = if has_flag bit a then a else a + bit * 262144

unfoldable pub clear_flag : ℕ → ℕ → ℕ
clear_flag bit a = if has_flag bit a then a - bit * 262144 else a

-- `(a & ~0x3ffff) | ((bg << 9) | fg)`
unfoldable pub swap_colors : ℕ → ℕ
swap_colors a = a / 262144 * 262144 + bg_of a * 512 + fg_of a

-- The branches of one parameter but 38 and 48.
unfoldable pub simple_attribute : ℕ → ℕ → ℕ
simple_attribute p a =
    if leb 30 p && leb p 37
    then set_fg (p - 30) a
    else if leb 40 p && leb p 47
    then set_bg (p - 40) a
    else if leb 90 p && leb p 97
    then set_fg (p + 8 - 90) a
    else if leb 100 p && leb p 107
    then set_bg (p + 8 - 100) a
    else if p == 0
    then def_attr
    else if p == 1
    then set_flag 1 a
    else if p == 4
    then set_flag 2 a
    else if p == 7
    then (if has_flag 4 a then a else swap_colors (set_flag 4 a))
    else if p == 27
    then (if has_flag 4 a then swap_colors (clear_flag 4 a) else a)
    else if p == 22
    then clear_flag 1 a
    else if p == 24
    then clear_flag 2 a
    else if p == 39
    then set_fg (fg_of def_attr) a
    else if p == 49
    then set_bg (bg_of def_attr) a
    else a

-- `params[i + 1] === 5` for the parameters 38 and 48
abbrev pub is_extended : ℕ → ℕ → Bool
is_extended p q = (p == 38 || p == 48) && q == 5

-- The colour of 38 and of 48; `c & 0xff`
unfoldable pub extended_attribute : ℕ → ℕ → ℕ → ℕ
extended_attribute p c a = if p == 38 then set_fg (c % 256) a else set_bg (c % 256) a

-- The loop. A colour that is missing behind `38;5` is `undefined & 0xff`, which is 0. Where 38 and
-- 48 are not followed by 5, the loop goes on with the next parameter.
unfoldable pub attributes : List ℕ → ℕ → ℕ
attributes [] a = a
attributes (p ∷ []) a = simple_attribute p a
attributes (p ∷ q ∷ []) a = elim (is_extended p q) [
  | true ↦ extended_attribute p 0 a
  | false ↦ attributes (q ∷ []) (simple_attribute p a)
]
attributes (p ∷ q ∷ c ∷ ps) a = elim (is_extended p q) [
  | true ↦ attributes ps (extended_attribute p c a)
  | false ↦ attributes (q ∷ c ∷ ps) (simple_attribute p a)
]

unfoldable pub char_attributes : List ℕ → Screen → Screen
char_attributes params s = record s { cur_attr = attributes params s.cur_attr }
