-- ===== src/Prelude/Text.antt =====
-- `str` as the list of its UTF-8 bytes, with the methods of the standard library that the code
-- calls. An index is a byte index, as in the source; `chars` decodes.
pub mod Suffix
pub mod Order
pub mod Trim
use Prim.Native.Char.{code}
use edge_gateway.Prelude.Tests.{ltb, leb, if◌then◌else◌}
use edge_gateway.Prelude.Lists.{last?}
use edge_gateway.Prelude.Equality.{◌==◌, nat_eq}
use Prim.Native.Nat.{ℕ, ◌+◌, ◌-◌, ◌*◌}
use Prim.Native.String.{String}
use mathlib.Core.Bool.{Bool, true, false, ◌&&◌, ◌||◌}
use mathlib.Core.Option.{Option, none, some}
use mathlib.Core.List.{List, [], ◌∷◌}

abbrev pub Text : Type 0
Text = List ℕ

-- An ASCII literal.
abbrev pub text : String → Text
text String.[] = []
text (String.◌∷◌ c s) = code c ∷ text s

unfoldable pub is_digit : ℕ → Bool
is_digit b = leb b'0' b && leb b b'9'

unfoldable pub is_upper : ℕ → Bool
is_upper b = leb b'A' b && leb b b'Z'

unfoldable pub is_lower : ℕ → Bool
is_lower b = leb b'a' b && leb b b'z'

unfoldable pub is_alphabetic : ℕ → Bool
unfolding is_upper is_lower
is_alphabetic b = is_upper b || is_lower b

unfoldable pub is_alphanumeric : ℕ → Bool
unfolding is_digit is_alphabetic
is_alphanumeric b = is_digit b || is_alphabetic b

unfoldable pub to_lower : ℕ → ℕ
unfolding is_upper
to_lower b = if is_upper b then b + 32 else b

-- `char::to_digit` at a radix of at most 16.
unfoldable pub to_digit : ℕ → ℕ → Option ℕ
to_digit radix c =
    let value =
      if leb b'0' c && leb c b'9'
      then some (c - b'0')
      else if leb b'a' c && leb c b'f'
      then some (c - b'a' + 10)
      else if leb b'A' c && leb c b'F'
      then some (c - b'A' + 10)
      else none in
    elim value [ none ↦ none | some d ↦ if ltb d radix then some d else none ]

unfoldable pub starts_with : Text → Text → Bool
starts_with s [] = true
starts_with [] (p ∷ ps) = false
starts_with (b ∷ s) (p ∷ ps) = b == p && starts_with s ps

unfoldable pub strip_prefix : Text → Text → Option Text
strip_prefix s [] = some s
strip_prefix [] (p ∷ ps) = none
strip_prefix (b ∷ s) (p ∷ ps) = if b == p then strip_prefix s ps else none

unfoldable pub ends_with_byte : Text → ℕ → Bool
ends_with_byte s b = elim (last? s) [ none ↦ false | some l ↦ l == b ]

-- `strip_suffix(c)` with the whole text where it does not end so.
unfoldable pub strip_last : ℕ → Text → Text
strip_last c [] = []
strip_last c (b ∷ []) = if b == c then [] else b ∷ []
strip_last c (b ∷ d ∷ s) = b ∷ strip_last c (d ∷ s)

unfoldable pub split_once : ℕ → Text → Option (Text × Text)
split_once c [] = none
split_once c (b ∷ s) =
    if b == c
    then some ([], s)
    else elim (split_once c s) [ none ↦ none | some (l, r) ↦ some (b ∷ l, r) ]

abbrev pub push_front : ℕ → List Text → List Text
push_front b [] = (b ∷ []) ∷ []
push_front b (s ∷ ss) = (b ∷ s) ∷ ss

-- `split(c)`: one part more than there are separators.
unfoldable pub split : ℕ → Text → List Text
split c [] = [] ∷ []
split c (b ∷ s) = if b == c then [] ∷ split c s else push_front b (split c s)

-- `contains("//")` and the like, for a text of two bytes.
unfoldable pub contains_pair : ℕ → ℕ → Text → Bool
contains_pair c d [] = false
contains_pair c d (a ∷ []) = false
contains_pair c d (a ∷ b ∷ s) = (a == c && b == d) || contains_pair c d (b ∷ s)

-- The code points of a valid UTF-8 text. Malformed bytes do not occur in a `str`.
unfoldable pub chars : Text → List ℕ
chars [] = []
chars (a ∷ []) = a ∷ []
chars (a ∷ b ∷ []) = if ltb a 128 then a ∷ b ∷ [] else ((a - 192) * 64 + (b - 128)) ∷ []
chars (a ∷ b ∷ c ∷ []) =
    let one = chars (b ∷ c ∷ []) in
    let two = chars (c ∷ []) in
    if ltb a 128
    then a ∷ one
    else if ltb a 224
    then ((a - 192) * 64 + (b - 128)) ∷ two
    else ((a - 224) * 4096 + (b - 128) * 64 + (c - 128)) ∷ []
chars (a ∷ b ∷ c ∷ d ∷ s) =
    let one = chars (b ∷ c ∷ d ∷ s) in
    let two = chars (c ∷ d ∷ s) in
    let three = chars (d ∷ s) in
    let four = chars s in
    if ltb a 128
    then a ∷ one
    else if ltb a 224
    then ((a - 192) * 64 + (b - 128)) ∷ two
    else if ltb a 240
    then ((a - 224) * 4096 + (b - 128) * 64 + (c - 128)) ∷ three
    else ((a - 240) * 262144 + (b - 128) * 4096 + (c - 128) * 64 + (d - 128)) ∷ four

-- The Unicode property White_Space.
unfoldable pub is_whitespace : ℕ → Bool
is_whitespace c =
    (leb 9 c && leb c 13)
    || c == 32
    || c == 0x85
    || c == 0xA0
    || c == 0x1680
    || (leb 0x2000 c && leb c 0x200A)
    || c == 0x2028
    || c == 0x2029
    || c == 0x202F
    || c == 0x205F
    || c == 0x3000

-- The general category Cc.
unfoldable pub is_control : ℕ → Bool
is_control c = ltb c 32 || (leb 127 c && ltb c 160)

parse_digits : ℕ → Text → Option ℕ
parse_digits acc [] = some acc
parse_digits acc (b ∷ s) = elim (to_digit 10 b) [
  | none ↦ none
  | some d ↦ parse_digits (acc * 10 + d) s
]

parse_unsigned : ℕ → Text → Option ℕ
unfolding parse_digits
parse_unsigned limit [] = none
parse_unsigned limit (b ∷ s) = elim (parse_digits 0 (b ∷ s)) [
  | none ↦ none
  | some n ↦ if ltb n limit then some n else none
]

-- `parse::<u16>()` and the like, with the number of values of the type. One plus sign may stand in
-- front.
unfoldable pub parse_uint : ℕ → Text → Option ℕ
unfolding parse_unsigned to_digit
parse_uint limit [] = none
parse_uint limit (b ∷ s) =
    if b == b'+' then parse_unsigned limit s else parse_unsigned limit (b ∷ s)

-- Opens every function of this module for a run.
unfoldable pub text_run : Unit {0}
unfolding is_digit is_upper is_lower is_alphabetic is_alphanumeric to_lower to_digit starts_with
    strip_prefix ends_with_byte strip_last split_once split contains_pair chars is_whitespace
    is_control parse_uint
text_run = tt
