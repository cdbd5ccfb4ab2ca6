-- ===== src/Net/Parse/Case.antt =====
-- Reading an address ignores the case of letters.
use edge_gateway.Prelude.{
  ℕ, zero, suc, ◌≡◌, refl, Bool, true, false, Option, none, some, List, [], ◌∷◌, map, arith, ◌==◌,
  nat_eq, is_empty, head?, option_eq, Option-cases, inl, inr, ◌*◌, ◌+◌, ◌-◌,
}
use edge_gateway.Prelude.Text.{Text, to_digit, to_lower}
use edge_gateway.Net.Parse.{
  ◌>>=◌, read_digits, read_number, read_given_char, read_separator, read_octet, read_ipv4_addr,
  read_groups, read_ipv6_addr, parse_ip, read_after_gap, read_after_head, length,
}

-- A reading with the rest in lower case.
abbrev lower_rest {ℓ} : {A : Type ℓ} → Option (A × Text) → Option (A × Text)
lower_rest none = none
lower_rest (some (a, rest)) = some (a, map to_lower rest)

abbrev IgnoresCase {ℓ} : {A : Type ℓ} → (Text → Option (A × Text)) → Type ℓ
IgnoresCase read = (s : Text) → read (map to_lower s) ≡ lower_rest (read s)

to_digit-to_lower : (radix c : ℕ) → to_digit radix (to_lower c) ≡ to_digit radix c
unfolding to_digit to_lower
to_digit-to_lower radix c = ground arith

-- A byte that is no letter is met by the same bytes.
to_lower-eq_zero : (c : ℕ) → (to_lower c == b'0') ≡ (c == b'0')
unfolding to_lower
to_lower-eq_zero c = ground arith

to_lower-eq_dot : (c : ℕ) → (to_lower c == b'.') ≡ (c == b'.')
unfolding to_lower
to_lower-eq_dot c = ground arith

to_lower-eq_colon : (c : ℕ) → (to_lower c == b':') ≡ (c == b':')
unfolding to_lower
to_lower-eq_colon c = ground arith

read_digits-case :
    (radix limit value count : ℕ) (s : Text)
    → read_digits radix limit value count (map to_lower s)
      ≡ elim (read_digits radix limit value count s) [
        | none ↦ none
        | some (v, n, rest) ↦ some (v, n, map to_lower rest)
      ]
unfolding read_digits
read_digits-case radix limit value count [] = refl
read_digits-case radix limit value count (c ∷ s) = elim (Option-cases (to_digit radix c)) [
  | inl stop ↦ ground (arith, to_digit-to_lower radix c)
  | inr (d, more) ↦ ground (
    arith,
    to_digit-to_lower radix c,
    read_digits-case radix limit (value * radix + d) (count + 1) s,
  )
]

head-case : (s : Text) → (head? (map to_lower s) == some b'0') ≡ (head? s == some b'0')
head-case [] = refl
head-case (c ∷ s) = to_lower-eq_zero c

read_number-case :
    (radix limit : ℕ) (allowed : Bool) (bound : ℕ)
    → IgnoresCase (read_number radix limit allowed bound)
unfolding read_number
read_number-case radix limit allowed bound s =
    ground (arith, read_digits-case radix limit 0 0 s, head-case s)

read_given_dot-case :
    (s : Text)
    → read_given_char b'.' (map to_lower s)
      ≡ elim (read_given_char b'.' s) [ none ↦ none | some r ↦ some (map to_lower r) ]
unfolding read_given_char
read_given_dot-case [] = refl
read_given_dot-case (c ∷ s) = ground (arith, to_lower-eq_dot c)

read_given_colon-case :
    (s : Text)
    → read_given_char b':' (map to_lower s)
      ≡ elim (read_given_char b':' s) [ none ↦ none | some r ↦ some (map to_lower r) ]
unfolding read_given_char
read_given_colon-case [] = refl
read_given_colon-case (c ∷ s) = ground (arith, to_lower-eq_colon c)

-- A separator that is no letter keeps the property.
read_separator-case {ℓ} :
    {A : Type ℓ} (c index : ℕ) (read : Text → Option (A × Text))
    → ((s : Text)
        → read_given_char c (map to_lower s)
          ≡ elim (read_given_char c s) [ none ↦ none | some r ↦ some (map to_lower r) ])
    → IgnoresCase read
    → IgnoresCase (read_separator c index read)
unfolding read_separator
read_separator-case c index read given h s = elim (Option-cases (read_given_char c s)) [
  | inl missing ↦ ground (arith, given s, h s)
  | inr (rest, found) ↦ ground (arith, given s, h s, h rest)
]

read_octet-case : (index : ℕ) → IgnoresCase (read_octet index)
unfolding read_octet
read_octet-case index =
    read_separator-case b'.' index _ read_given_dot-case (read_number-case 10 3 false 256)

bind-case {ℓ κ} :
    {A : Type ℓ} {B : Type κ} (read : Text → Option (A × Text))
    (next : A → Text → Option (B × Text))
    → IgnoresCase read
    → ((a : A) → IgnoresCase (next a))
    → IgnoresCase (λ s. read s >>= λ p. next p.0 p.1)
bind-case read next h k s = elim (Option-cases (read s)) [
  | inl missing ↦ ground (arith, h s)
  | inr ((a, rest), found) ↦ ground (arith, h s, k a rest)
]

read_ipv4_addr-case : IgnoresCase read_ipv4_addr
unfolding read_ipv4_addr
read_ipv4_addr-case = bind-case (read_octet 0) _ (read_octet-case 0) λ a.
    bind-case (read_octet 1) _ (read_octet-case 1) λ b.
      bind-case (read_octet 2) _ (read_octet-case 2)
        λ c. bind-case (read_octet 3) _ (read_octet-case 3) λ d s. refl

read_groups-case :
    (room index : ℕ) (s : Text)
    → read_groups room index (map to_lower s)
      ≡ (let (gs, ipv4, rest) = read_groups room index s in (gs, ipv4, map to_lower rest))
unfolding read_groups
read_groups-case zero index s = refl
read_groups-case (suc room) index s =
    let embedded = read_separator-case b':' index _ read_given_colon-case read_ipv4_addr-case s in
    let group =
      read_separator-case b':' index _ read_given_colon-case (read_number-case 16 4 true 65536) s in
    elim (Option-cases (read_separator b':' index (read_number 16 4 true 65536) s)) [
      | inl missing ↦ ground (arith, embedded, group)
      | inr ((g, rest), found) ↦
          ground (arith, embedded, group, read_groups-case room (index + 1) rest)
    ]

read_after_gap-case : (head : List ℕ) → IgnoresCase (read_after_gap head)
unfolding read_after_gap
read_after_gap-case head s = rw (read_groups-case (8 - (length head + 1)) 0 s)

read_after_head-case : (head : List ℕ) (ipv4 : Bool) → IgnoresCase (read_after_head head ipv4)
unfolding read_after_head
read_after_head-case head ipv4 s = elim (Option-cases (read_given_char b':' s)) [
  | inl missing ↦ ground (arith, read_given_colon-case s)
  | inr (s₁, found) ↦ elim (Option-cases (read_given_char b':' s₁)) [
    | inl missing ↦ ground (arith, read_given_colon-case s, read_given_colon-case s₁)
    | inr (s₂, again) ↦
        ground
          (arith, read_given_colon-case s, read_given_colon-case s₁, read_after_gap-case head s₂)
  ]
]

read_ipv6_addr-case : IgnoresCase read_ipv6_addr
unfolding read_ipv6_addr
read_ipv6_addr-case s =
    let r = read_groups 8 0 s in rw (read_groups-case 8 0 s) (read_after_head-case r.0 r.1 r.2)

is_empty-map : (s : Text) → is_empty (map to_lower s) ≡ is_empty s
is_empty-map [] = refl
is_empty-map (c ∷ s) = refl

-- The case of letters does not change what an address text denotes.
pub parse_ip-to_lower : (s : Text) → parse_ip (map to_lower s) ≡ parse_ip s
unfolding parse_ip
parse_ip-to_lower s = elim (Option-cases (read_ipv4_addr s)) [
  | inr ((a, rest), found) ↦ ground (arith, read_ipv4_addr-case s, is_empty-map rest)
  | inl missing ↦ elim (Option-cases (read_ipv6_addr s)) [
    | inr ((a, rest), found) ↦
        ground (arith, read_ipv4_addr-case s, read_ipv6_addr-case s, is_empty-map rest)
    | inl absent ↦ ground (arith, read_ipv4_addr-case s, read_ipv6_addr-case s)
  ]
]
