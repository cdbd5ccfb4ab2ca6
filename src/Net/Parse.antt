-- ===== src/Net/Parse.antt =====
-- `str::parse::<IpAddr>`, the reader of the standard library: four decimal groups without leading
-- zeros, or eight hexadecimal groups with one `::` and an IPv4 tail allowed.
pub mod Case
use edge_gateway.Prelude.{
  ℕ, zero, suc, ◌+◌, ◌-◌, ◌*◌, ◌/◌, ◌%◌, ◌^◌, Bool, true, false, not, ◌&&◌, Option, none, some,
  List, [], ◌∷◌, ◌++◌, ltb, if◌then◌else◌, length, is_empty, head?, ◌==◌, nat_eq, option_eq,
}
use edge_gateway.Prelude.Text.{Text, to_digit}
use edge_gateway.Net.{IpAddr, v4, v6}

infixl 5 ◌>>=◌
abbrev pub ◌>>=◌ {ℓ κ} : {A : Type ℓ} {B : Type κ} → Option A → (A → Option B) → Option B
none >>= k = none
some a >>= k = k a

-- The number, how many digits it has, and what follows; `none` past `limit` digits.
read_digits : ℕ → ℕ → ℕ → ℕ → Text → Option (ℕ × ℕ × Text)
read_digits radix limit value count [] = some (value, count, [])
read_digits radix limit value count (c ∷ s) = elim (to_digit radix c) [
  | none ↦ some (value, count, c ∷ s)
  | some d ↦ elim (ltb limit (count + 1)) [
    | true ↦ none
    | false ↦ read_digits radix limit (value * radix + d) (count + 1) s
  ]
]

read_number : ℕ → ℕ → Bool → ℕ → Text → Option (ℕ × Text)
unfolding read_digits
read_number radix limit allow_zero_prefix bound s = do
  (value, count, rest) ← read_digits radix limit 0 0 s
  let zero_prefixed = not allow_zero_prefix && head? s == some b'0' && ltb 1 count
  if count == 0
      then none
      else if zero_prefixed
      then none
      else if ltb value bound
      then some (value, rest)
      else none

read_given_char : ℕ → Text → Option Text
read_given_char c [] = none
read_given_char c (b ∷ s) = if b == c then some s else none

read_separator {ℓ} : {A : Type ℓ} → ℕ → ℕ → (Text → Option (A × Text)) → Text → Option (A × Text)
unfolding read_given_char
read_separator c index inner s =
    if index == 0 then inner s else (read_given_char c s >>= λ rest. inner rest)

read_octet : ℕ → Text → Option (ℕ × Text)
unfolding read_number read_separator
read_octet index s = read_separator b'.' index (read_number 10 3 false 256) s

read_ipv4_addr : Text → Option (ℕ × Text)
unfolding read_octet
read_ipv4_addr s = do
  (a, s₁) ← read_octet 0 s
  (b, s₂) ← read_octet 1 s₁
  (c, s₃) ← read_octet 2 s₂
  (d, s₄) ← read_octet 3 s₃
  some (a * 2 ^ 24 + b * 2 ^ 16 + c * 2 ^ 8 + d, s₄)

-- The groups up to `::` or the end, whether the last two came as an IPv4 address, and the rest. The
-- first argument is how many groups there is room for.
read_groups : ℕ → ℕ → Text → List ℕ × Bool × Text
unfolding read_ipv4_addr read_separator read_number
read_groups zero index s = ([], false, s)
read_groups (suc room) index s =
    let embedded = if room == 0 then none else read_separator b':' index read_ipv4_addr s in
    elim embedded [
      | some (a, rest) ↦ ((a / 2 ^ 16) ∷ (a % 2 ^ 16) ∷ [], true, rest)
      | none ↦ elim (read_separator b':' index (read_number 16 4 true 65536) s) [
        | none ↦ ([], false, s)
        | some (g, rest) ↦
            let (gs, ipv4, after) = read_groups room (index + 1) rest in (g ∷ gs, ipv4, after)
      ]
    ]

join_groups : ℕ → List ℕ → ℕ
join_groups value [] = value
join_groups value (g ∷ gs) = join_groups (value * 2 ^ 16 + g) gs

zeros : ℕ → List ℕ
zeros zero = []
zeros (suc n) = 0 ∷ zeros n

-- What stands behind `::`, with at least one group of zeros between the two parts.
read_after_gap : List ℕ → Text → Option (ℕ × Text)
unfolding read_groups join_groups zeros
read_after_gap head s =
    let (tail, ipv4, rest) = read_groups (8 - (length head + 1)) 0 s in
    some (join_groups 0 (head ++ (zeros (8 - length head - length tail) ++ tail)), rest)

read_after_head : List ℕ → Bool → Text → Option (ℕ × Text)
unfolding read_after_gap join_groups read_given_char
read_after_head head ipv4 s =
    if length head == 8
    then some (join_groups 0 head, s)
    else if ipv4
    then none
    else do s₁ ← read_given_char b':' s; s₂ ← read_given_char b':' s₁; read_after_gap head s₂

read_ipv6_addr : Text → Option (ℕ × Text)
unfolding read_groups read_after_head
read_ipv6_addr s = let (head, ipv4, rest) = read_groups 8 0 s in read_after_head head ipv4 rest

-- The whole text has to be read.
unfoldable pub parse_ip : Text → Option IpAddr
unfolding read_ipv4_addr read_ipv6_addr to_digit
parse_ip s = elim (read_ipv4_addr s) [
  | some (a, rest) ↦ if is_empty rest then some (v4 a) else none
  | none ↦ elim (read_ipv6_addr s) [
    | some (a, rest) ↦ if is_empty rest then some (v6 a) else none
    | none ↦ none
  ]
]
