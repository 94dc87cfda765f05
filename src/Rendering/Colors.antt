-- ===== src/Rendering/Colors.antt =====
-- `Terminal.colors`: 16 colours by hand, 216 of a cube, 24 greys, and the two default colours.
use genie_tangle.Prelude.{
  length, [], if◌then◌else◌, ◌*◌, ◌/◌, if◌then◌else◌, ltb, if◌then◌else◌, ◌++◌, zero, List, get_or,
  ◌+◌, suc, ◌∷◌, ◌%◌, codes, ℕ,
}

-- one digit of `c.toString(16)`
unfoldable pub hex_digit : ℕ → ℕ
hex_digit d = if ltb d 10 then d + 48 else d + 87

-- `hex`, of a number below 256
unfoldable pub hex : ℕ → List ℕ
hex c =
    let text =
      if ltb c 16 then hex_digit c ∷ [] else hex_digit (c / 16) ∷ hex_digit (c % 16) ∷ [] in
    if ltb (length text) 2 then b'0' ∷ text else text

-- what `out` pushes
unfoldable pub color_text : ℕ → ℕ → ℕ → List ℕ
color_text r g b = b'#' ∷ (hex r ++ (hex g ++ hex b))

-- `r` of the cube
abbrev pub levels : List ℕ
levels = 0x00 ∷ 0x5f ∷ 0x87 ∷ 0xaf ∷ 0xd7 ∷ 0xff ∷ []

-- the first loop, with the rounds that are left
unfoldable pub cube_colors : ℕ → ℕ → List (List ℕ)
cube_colors zero i = []
cube_colors (suc n) i =
    color_text (get_or levels (i / 36 % 6) 0) (get_or levels (i / 6 % 6) 0)
      (get_or levels (i % 6) 0)
    ∷ cube_colors n (suc i)

-- the second loop
unfoldable pub grey_colors : ℕ → ℕ → List (List ℕ)
grey_colors zero i = []
grey_colors (suc n) i = let r = 8 + i * 10 in color_text r r r ∷ grey_colors n (suc i)

abbrev pub dark_colors : List (List ℕ)
dark_colors =
    codes "#2e3436"
    ∷ codes "#cc0000"
    ∷ codes "#4e9a06"
    ∷ codes "#c4a000"
    ∷ codes "#3465a4"
    ∷ codes "#75507b"
    ∷ codes "#06989a"
    ∷ codes "#d3d7cf"
    ∷ []

abbrev pub bright_colors : List (List ℕ)
bright_colors =
    codes "#555753"
    ∷ codes "#ef2929"
    ∷ codes "#8ae234"
    ∷ codes "#fce94f"
    ∷ codes "#729fcf"
    ∷ codes "#ad7fa8"
    ∷ codes "#34e2e2"
    ∷ codes "#eeeeec"
    ∷ []

-- `Terminal.defaultColors`
abbrev pub default_bg : List ℕ
default_bg = codes "#000000"

abbrev pub default_fg : List ℕ
default_fg = codes "#f0f0f0"

unfoldable pub colors : List (List ℕ)
colors =
    dark_colors
    ++ (bright_colors
        ++ (cube_colors 216 0 ++ (grey_colors 24 0 ++ (default_bg ∷ default_fg ∷ []))))

-- `Terminal.colors[c]` in a text
unfoldable pub color : ℕ → List ℕ
color c = get_or colors c (codes "undefined")
