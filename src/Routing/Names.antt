-- ===== src/Routing/Names.antt =====
-- src/routing/mod.rs: which texts `normalize_dns_host` accepts, and what it makes of them.
use edge_gateway.Prelude.{
  ℕ, ◌≤◌, ◌<◌, ◌≡◌, refl, ◌↔◌, ◌⊎◌, true, false, ◌||◌, none, List, [], ◌∷◌, arith, ok, length, all,
  All, ◌==◌, nat_eq, Bool, Bool-cases, map, All-map, inl, length-pos_iff, ==_iff, ap, inr,
}
use edge_gateway.Prelude.Text.{
  Text, is_alphanumeric, ends_with_byte, starts_with, split, strip_last, to_lower, push_front,
}
use edge_gateway.Net.Parse.{parse_ip}
use edge_gateway.Routing.{label_refused, check_labels, normalize_dns_host, is_ascii}

-- A byte of a label: a letter, a digit or a hyphen.
abbrev pub IsLabelByte : ℕ → Type 0
IsLabelByte b = (is_alphanumeric b ≡ true) ⊎ (b ≡ b'-')

-- A label of a DNS name, in any case.
pub record IsLabel (label : Text) : Type 0 where
  pub some_byte : 0 < length label
  pub bounded : length label ≤ 63
  pub bytes : All IsLabelByte label
  pub no_hyphen_first : starts_with label (b'-' ∷ []) ≡ false
  pub no_hyphen_last : ends_with_byte label b'-' ≡ false

-- A DNS name that is no IP literal.
pub record IsDnsName (name : Text) : Type 0 where
  pub some_byte : 0 < length name
  pub bounded : length name ≤ 253
  pub not_ip : parse_ip name ≡ none
  pub labels : All IsLabel (split b'.' name)

All-IsLabelByte :
    (l : Text) → all (λ b. is_alphanumeric b || b == b'-') l ≡ true → All IsLabelByte l
All-IsLabelByte [] h = tt
All-IsLabelByte (b ∷ l) h = (ground arith, All-IsLabelByte l (ground arith))

all_of_IsLabelByte :
    (l : Text) → All IsLabelByte l → all (λ b. is_alphanumeric b || b == b'-') l ≡ true
all_of_IsLabelByte [] h = refl
all_of_IsLabelByte (b ∷ l) h = ground (arith, all_of_IsLabelByte l h.1)

pub label_refused-IsLabel : (l : Text) → (label_refused l ≡ false) ↔ IsLabel l
unfolding label_refused
label_refused-IsLabel [] = (λ h. cc, λ v. absurd (omega (arith, v.some_byte)))
label_refused-IsLabel (b ∷ l) = (
  λ h. record {
    some_byte = omega arith;
    bounded = ground arith;
    bytes = All-IsLabelByte (b ∷ l) (ground arith);
    no_hyphen_first = ground arith;
    no_hyphen_last = ground arith;
  },
  λ v.
      ground
        (arith, all_of_IsLabelByte (b ∷ l) v.bytes, v.no_hyphen_first, v.no_hyphen_last, v.bounded),
)

check_labels-IsLabel : (ls : List Text) → (check_labels ls ≡ ok tt) ↔ All IsLabel ls
unfolding check_labels
check_labels-IsLabel [] = ground arith
check_labels-IsLabel (l ∷ ls) = ground (arith, label_refused-IsLabel l, check_labels-IsLabel ls)

all_of_push_front :
    (p : ℕ → Bool) (b : ℕ) (ls : List Text)
    → All (λ part. all p part ≡ true) (push_front b ls)
    → (p b ≡ true) × All (λ part. all p part ≡ true) ls
all_of_push_front p b [] h = ground arith
all_of_push_front p b (l ∷ ls) h = ground arith

-- A test that each part of a split passes, and the separator, is passed by the whole text.
all_of_split :
    (p : ℕ → Bool) (c : ℕ) (s : Text)
    → p c ≡ true
    → All (λ part. all p part ≡ true) (split c s)
    → all p s ≡ true
unfolding split
all_of_split p c [] pc h = refl
all_of_split p c (b ∷ s) pc h = elim (Bool-cases (b == c)) [
  | inl same ↦ let e : b ≡ c = (==_iff b c).0 same in ground (arith, ap p e, all_of_split p c s pc)
  | inr other ↦ ground (arith, all_of_push_front p b (split c s), all_of_split p c s pc)
]

is_ascii-IsLabelByte : (l : Text) → All IsLabelByte l → is_ascii l ≡ true
unfolding is_ascii is_alphanumeric
is_ascii-IsLabelByte [] h = refl
is_ascii-IsLabelByte (b ∷ l) h = ground (arith, is_ascii-IsLabelByte l h.1)

is_ascii-IsDnsName : (name : Text) → All IsLabel (split b'.' name) → is_ascii name ≡ true
unfolding is_ascii
is_ascii-IsDnsName name h =
    all_of_split _ b'.' name refl
      (All-map IsLabel _ (split b'.' name) (λ l v. is_ascii-IsLabelByte l v.bytes) h)

-- `normalize_dns_host` accepts exactly the DNS names, with at most one dot behind, and returns the
-- name without that dot in lower case.
pub normalize_dns_host_iff :
    (v n : Text)
    → (normalize_dns_host v ≡ ok n)
      ↔ (IsDnsName (strip_last b'.' v) × (n ≡ map to_lower (strip_last b'.' v)))
unfolding normalize_dns_host
normalize_dns_host_iff v n = (
  λ h. (
    record {
      some_byte = (length-pos_iff (strip_last b'.' v)).0 (ground arith);
      bounded = ground arith;
      not_ip = ground arith;
      labels = (check_labels-IsLabel _).0 (ground arith);
    },
    ground arith,
  ),
  λ (d, e). ground (
    arith,
    d.bounded,
    (length-pos_iff (strip_last b'.' v)).1 d.some_byte,
    (check_labels-IsLabel _).1 d.labels,
    is_ascii-IsDnsName _ d.labels,
    d.not_ip,
  ),
)
