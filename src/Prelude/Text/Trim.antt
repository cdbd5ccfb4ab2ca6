-- ===== src/Prelude/Text/Trim.antt =====
-- `str::trim` on UTF-8 bytes: the white space that stands at both ends.
use edge_gateway.Prelude.{
  ℕ, zero, suc, Bool, ◌&&◌, ◌||◌, List, [], ◌∷◌, ltb, leb, if◌then◌else◌, is_empty, any, ◌==◌,
  nat_eq,
}
use edge_gateway.Prelude.Text.{Text, starts_with}

-- The characters of White_Space that take two and three bytes.
abbrev wide_spaces : List Text
wide_spaces =
    (0xE1 ∷ 0x9A ∷ 0x80 ∷ [])
    ∷ (0xE2 ∷ 0x80 ∷ 0xA8 ∷ [])
    ∷ (0xE2 ∷ 0x80 ∷ 0xA9 ∷ [])
    ∷ (0xE2 ∷ 0x80 ∷ 0xAF ∷ [])
    ∷ (0xE2 ∷ 0x81 ∷ 0x9F ∷ [])
    ∷ (0xE3 ∷ 0x80 ∷ 0x80 ∷ [])
    ∷ []

is_wide_space : Text → Bool
is_wide_space (a ∷ b ∷ c ∷ s) =
    any (starts_with (a ∷ b ∷ c ∷ [])) wide_spaces
    || (a == 0xE2 && b == 0x80 && leb 0x80 c && leb c 0x8A)
is_wide_space s = ltb 1 0

is_double_space : Text → Bool
is_double_space (a ∷ b ∷ s) = a == 0xC2 && (b == 0x85 || b == 0xA0)
is_double_space s = ltb 1 0

is_single_space : Text → Bool
is_single_space (a ∷ s) = (leb 9 a && leb a 13) || a == 32
is_single_space [] = ltb 1 0

-- The bytes of the white space that the text begins with.
unfoldable pub space_width : Text → ℕ
unfolding is_single_space is_double_space is_wide_space starts_with
space_width s =
    if is_single_space s
    then 1
    else if is_double_space s
    then 2
    else if is_wide_space s
    then 3
    else 0

-- The text behind `left` more bytes and the white space after them.
skip_spaces : ℕ → Text → Text
skip_spaces left [] = []
skip_spaces zero (b ∷ s) = elim (space_width (b ∷ s)) [ zero ↦ b ∷ s | suc k ↦ skip_spaces k s ]
skip_spaces (suc k) (b ∷ s) = skip_spaces k s

unfoldable pub trim_spaces_start : Text → Text
unfolding skip_spaces
trim_spaces_start s = skip_spaces 0 s

unfoldable pub trim_spaces_end : Text → Text
trim_spaces_end [] = []
trim_spaces_end (b ∷ s) =
    let rest = trim_spaces_end s in if is_empty (trim_spaces_start (b ∷ s)) then [] else b ∷ rest

unfoldable pub trim : Text → Text
trim s = trim_spaces_end (trim_spaces_start s)

-- Opens what a run of `trim` calls.
unfoldable pub trim_run : Unit {0}
unfolding space_width trim_spaces_start trim_spaces_end trim
trim_run = tt
