-- ===== src/Messages/Utf8.antt =====
-- `std::str::from_utf8`, which src/gateway/websocket_message.rs calls, as an automaton over bytes, with
-- what its error says: how much is valid, and whether the text only ends too early (`error_len` is
-- `None`) or has a byte that cannot stand there.
use edge_gateway.Prelude.{
  ℕ, ◌+◌, ◌≡◌, refl, Bool, true, false, ◌&&◌, ◌==◌, nat_eq, ltb, leb, if◌then◌else◌, Option, none,
  some, [], ◌∷◌, ◌++◌, arith,
}
use edge_gateway.Prelude.Text.{Text}

-- Between two characters, or what the open character still takes.
pub data Utf8State : Type 0 where
  boundary one_more two_more three_more after_e0 after_ed after_f0 after_f4 : Utf8State

abbrev within : ℕ → ℕ → ℕ → Utf8State → Option Utf8State
within low high b next = if leb low b && leb b high then some next else none

lead : ℕ → Option Utf8State
lead b =
    if ltb b 0x80
    then some boundary
    else if ltb b 0xC2
    then none
    else if ltb b 0xE0
    then some one_more
    else if b == 0xE0
    then some after_e0
    else if b == 0xED
    then some after_ed
    else if ltb b 0xF0
    then some two_more
    else if b == 0xF0
    then some after_f0
    else if ltb b 0xF4
    then some three_more
    else if b == 0xF4
    then some after_f4
    else none

unfoldable pub step : Utf8State → ℕ → Option Utf8State
unfolding lead
step boundary b = lead b
step one_more b = within 0x80 0xBF b boundary
step two_more b = within 0x80 0xBF b one_more
step three_more b = within 0x80 0xBF b two_more
step after_e0 b = within 0xA0 0xBF b one_more
step after_ed b = within 0x80 0x9F b one_more
step after_f0 b = within 0x90 0xBF b two_more
step after_f4 b = within 0x80 0x8F b two_more

unfoldable pub run : Utf8State → Text → Option Utf8State
run q [] = some q
run q (b ∷ s) = elim (step q b) [ none ↦ none | some r ↦ run r s ]

abbrev pub is_boundary : Utf8State → Bool
is_boundary boundary = true
is_boundary one_more = false
is_boundary two_more = false
is_boundary three_more = false
is_boundary after_e0 = false
is_boundary after_ed = false
is_boundary after_f0 = false
is_boundary after_f4 = false

-- `Result<&str, Utf8Error>`, an error with its `valid_up_to`.
pub data Utf8Result : Type 0 where
  valid : Utf8Result
  incomplete malformed : ℕ → Utf8Result

-- From a state, behind the last character that ends at `done` and with `at` bytes read.
unfoldable pub scan : Utf8State → (done at : ℕ) → Text → Utf8Result
scan q done at [] = if is_boundary q then valid else incomplete done
scan q done at (b ∷ s) = elim (step q b) [
  | none ↦ malformed done
  | some r ↦ let next = at + 1 in scan r (if is_boundary r then next else done) next s
]

unfoldable pub from_utf8 : Text → Utf8Result
from_utf8 s = scan boundary 0 0 s

-- A text of whole characters.
unfoldable pub is_utf8 : Text → Bool
is_utf8 s = elim (run boundary s) [ none ↦ false | some q ↦ is_boundary q ]

pub run-append :
    (q : Utf8State) (a b : Text)
    → run q (a ++ b) ≡ elim (run q a) [ none ↦ none | some r ↦ run r b ]
unfolding run
run-append q [] b = refl
run-append q (x ∷ a) b =
    elim (step q x)
      as (λ o.
        elim o as (λ _. Option Utf8State) [ none ↦ none | some r ↦ run r (a ++ b) ]
        ≡ elim (elim o as (λ _. Option Utf8State) [ none ↦ none | some r ↦ run r a ])
            as (λ _. Option Utf8State) [ none ↦ none | some r ↦ run r b ]) [
              | none ↦ refl
              | some r ↦ run-append r a b
            ]

-- The bytes that the open character still takes, and those of a character by its first byte.
abbrev pub missing : Utf8State → ℕ
missing boundary = 0
missing one_more = 1
missing two_more = 2
missing three_more = 3
missing after_e0 = 2
missing after_ed = 2
missing after_f0 = 3
missing after_f4 = 3

abbrev pub width : ℕ → ℕ
width first = if ltb first 0xe0 then 2 else if ltb first 0xf0 then 3 else 4

-- Each byte of an open character leaves one less to come.
pub missing-step :
    (q r : Utf8State) (b : ℕ)
    → is_boundary q ≡ false
    → step q b ≡ some r
    → missing r + 1 ≡ missing q
unfolding step
missing-step boundary r b o e = cc
missing-step one_more r b o e = ground arith
missing-step two_more r b o e = ground arith
missing-step three_more r b o e = ground arith
missing-step after_e0 r b o e = ground arith
missing-step after_ed r b o e = ground arith
missing-step after_f0 r b o e = ground arith
missing-step after_f4 r b o e = ground arith

pub missing-lead :
    (r : Utf8State) (b : ℕ)
    → step boundary b ≡ some r
    → is_boundary r ≡ false
    → missing r + 1 ≡ width b
unfolding step lead
missing-lead r b e o = ground arith

pub missing-zero : (q : Utf8State) → missing q ≡ 0 → is_boundary q ≡ true
missing-zero boundary e = refl
missing-zero one_more e = absurd (omega arith)
missing-zero two_more e = absurd (omega arith)
missing-zero three_more e = absurd (omega arith)
missing-zero after_e0 e = absurd (omega arith)
missing-zero after_ed e = absurd (omega arith)
missing-zero after_f0 e = absurd (omega arith)
missing-zero after_f4 e = absurd (omega arith)
