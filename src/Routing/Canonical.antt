-- ===== src/Routing/Canonical.antt =====
-- src/routing/mod.rs: the output of `normalize_dns_host` is a canonical form.
use edge_gateway.Prelude.{
  ℕ, ◌≡◌, refl, ap, true, false, List, [], ◌∷◌, map, arith, ok, length, All, ◌==◌, nat_eq,
  Bool-cases, inl, inr, suc, ◌∙◌, sym,
}
use edge_gateway.Prelude.Text.{
  Text, is_upper, is_alphanumeric, to_lower, ends_with_byte, starts_with, strip_last, split,
  push_front,
}
use edge_gateway.Net.Parse.Case.{parse_ip-to_lower}
use edge_gateway.Routing.{normalize_dns_host}
use edge_gateway.Routing.Names.{IsLabelByte, IsLabel, IsDnsName, normalize_dns_host_iff}

pub length-map : (s : Text) → length (map to_lower s) ≡ length s
length-map [] = refl
length-map (b ∷ s) = ap suc (length-map s)

to_lower-eq_dot : (b : ℕ) → (to_lower b == b'.') ≡ (b == b'.')
unfolding to_lower
to_lower-eq_dot b = ground arith

to_lower-eq_hyphen : (b : ℕ) → (to_lower b == b'-') ≡ (b == b'-')
unfolding to_lower
to_lower-eq_hyphen b = ground arith

map-push_front :
    (b : ℕ) (ls : List Text)
    → map (map to_lower) (push_front b ls) ≡ push_front (to_lower b) (map (map to_lower) ls)
map-push_front b [] = refl
map-push_front b (l ∷ ls) = refl

split-map : (s : Text) → split b'.' (map to_lower s) ≡ map (map to_lower) (split b'.' s)
unfolding split
split-map [] = refl
split-map (b ∷ s) = ground (arith, to_lower-eq_dot b, split-map s, map-push_front b (split b'.' s))

IsLabelByte-to_lower : (b : ℕ) → IsLabelByte b → IsLabelByte (to_lower b)
unfolding is_alphanumeric to_lower
IsLabelByte-to_lower b h = ground arith

All-IsLabelByte-map : (l : Text) → All IsLabelByte l → All IsLabelByte (map to_lower l)
All-IsLabelByte-map [] h = tt
All-IsLabelByte-map (b ∷ l) h = (IsLabelByte-to_lower b h.0, All-IsLabelByte-map l h.1)

ends_with_hyphen-map : (l : Text) → ends_with_byte (map to_lower l) b'-' ≡ ends_with_byte l b'-'
unfolding ends_with_byte
ends_with_hyphen-map [] = refl
ends_with_hyphen-map (b ∷ []) = to_lower-eq_hyphen b
ends_with_hyphen-map (b ∷ c ∷ l) = ends_with_hyphen-map (c ∷ l)

starts_with_hyphen-map :
    (l : Text) → starts_with (map to_lower l) (b'-' ∷ []) ≡ starts_with l (b'-' ∷ [])
unfolding starts_with
starts_with_hyphen-map [] = refl
starts_with_hyphen-map (b ∷ l) = ground (arith, to_lower-eq_hyphen b)

IsLabel-map : (l : Text) → IsLabel l → IsLabel (map to_lower l)
IsLabel-map l v = record {
  some_byte = omega (arith, v.some_byte, length-map l);
  bounded = omega (arith, v.bounded, length-map l);
  bytes = All-IsLabelByte-map l v.bytes;
  no_hyphen_first = starts_with_hyphen-map l ∙ v.no_hyphen_first;
  no_hyphen_last = ends_with_hyphen-map l ∙ v.no_hyphen_last;
}

All-IsLabel-map : (ls : List Text) → All IsLabel ls → All IsLabel (map (map to_lower) ls)
All-IsLabel-map [] h = tt
All-IsLabel-map (l ∷ ls) h = (IsLabel-map l h.0, All-IsLabel-map ls h.1)

pub IsDnsName-map : (name : Text) → IsDnsName name → IsDnsName (map to_lower name)
IsDnsName-map name d = record {
  some_byte = omega (arith, d.some_byte, length-map name);
  bounded = omega (arith, d.bounded, length-map name);
  not_ip = parse_ip-to_lower name ∙ d.not_ip;
  labels = rw (split-map name) (All-IsLabel-map _ d.labels);
}

-- At least two parts, the last of them empty.
abbrev LastEmpty : List Text → Type 0
LastEmpty [] = ⊥
LastEmpty (l ∷ []) = ⊥
LastEmpty (l ∷ m ∷ []) = m ≡ []
LastEmpty (l ∷ m ∷ n ∷ ls) = LastEmpty (m ∷ n ∷ ls)

LastEmpty-push_front : (b : ℕ) (ls : List Text) → LastEmpty ls → LastEmpty (push_front b ls)
LastEmpty-push_front b [] h = h
LastEmpty-push_front b (l ∷ []) h = h
LastEmpty-push_front b (l ∷ m ∷ []) h = h
LastEmpty-push_front b (l ∷ m ∷ n ∷ ls) h = h

LastEmpty-cons : (l : Text) (ls : List Text) → LastEmpty ls → LastEmpty (l ∷ ls)
LastEmpty-cons l [] h = absurd h
LastEmpty-cons l (m ∷ []) h = absurd h
LastEmpty-cons l (m ∷ n ∷ ls) h = h

LastEmpty-split : (s : Text) → ends_with_byte s b'.' ≡ true → LastEmpty (split b'.' s)
unfolding split ends_with_byte
LastEmpty-split [] h = cc
LastEmpty-split (b ∷ []) h = ground arith
LastEmpty-split (b ∷ c ∷ s) h = ground (
  arith,
  LastEmpty-push_front b (split b'.' (c ∷ s)) (LastEmpty-split (c ∷ s) h),
  LastEmpty-cons [] (split b'.' (c ∷ s)) (LastEmpty-split (c ∷ s) h),
)

not-LastEmpty : (ls : List Text) → All IsLabel ls → ¬ LastEmpty ls
not-LastEmpty [] v h = h
not-LastEmpty (l ∷ []) v h = h
not-LastEmpty (l ∷ m ∷ []) v h = omega (arith, v.1.0.some_byte, ap length h)
not-LastEmpty (l ∷ m ∷ n ∷ ls) v h = not-LastEmpty (m ∷ n ∷ ls) v.1 h

strip_last_lem : (s : Text) → ends_with_byte s b'.' ≡ false → strip_last b'.' s ≡ s
unfolding strip_last ends_with_byte
strip_last_lem [] h = refl
strip_last_lem (b ∷ []) h = ground arith
strip_last_lem (b ∷ c ∷ s) h = ap (λ r. b ∷ r) (strip_last_lem (c ∷ s) h)

-- Labels have bytes, so no dot stands at the end of a DNS name.
strip_last-IsDnsName : (name : Text) → IsDnsName name → strip_last b'.' name ≡ name
strip_last-IsDnsName name d = elim (Bool-cases (ends_with_byte name b'.')) [
  | inl dot ↦ absurd (not-LastEmpty _ d.labels (LastEmpty-split name dot))
  | inr no_dot ↦ strip_last_lem name no_dot
]

to_lower-not_upper : (b : ℕ) → is_upper (to_lower b) ≡ false
unfolding to_lower
to_lower-not_upper b = ground arith

to_lower_twice : (b : ℕ) → to_lower (to_lower b) ≡ to_lower b
unfolding to_lower
to_lower_twice b = ground arith

to_lower_idempotent : (s : Text) → map to_lower (map to_lower s) ≡ map to_lower s
to_lower_idempotent [] = refl
to_lower_idempotent (b ∷ s) = cc (to_lower_twice b, to_lower_idempotent s)

All-not_upper : (s : Text) → All (λ b. is_upper b ≡ false) (map to_lower s)
All-not_upper [] = tt
All-not_upper (b ∷ s) = (to_lower-not_upper b, All-not_upper s)

-- A DNS name in lower case is what `normalize_dns_host` makes of it.
pub lower-canonical :
    (n name : Text)
    → IsDnsName n
    → n ≡ map to_lower name
    → All (λ b. is_upper b ≡ false) n × (normalize_dns_host n ≡ ok n)
lower-canonical n name lower e =
    let stripped = strip_last-IsDnsName n lower in
    (
      rw e (All-not_upper name),
      (normalize_dns_host_iff n n).1
          (rw stripped lower, rw stripped (rw e (sym (to_lower_idempotent name)))),
    )

-- The output is a DNS name without upper-case letters, and `normalize_dns_host` returns it
-- unchanged.
pub normalize_dns_host_canonical :
    (v n : Text)
    → normalize_dns_host v ≡ ok n
    → IsDnsName n × All (λ b. is_upper b ≡ false) n × (normalize_dns_host n ≡ ok n)
normalize_dns_host_canonical v n h =
    let (d, e) = (normalize_dns_host_iff v n).0 h in
    let name = strip_last b'.' v in
    let lower : IsDnsName n = rw e (IsDnsName-map name d) in
    let rest = lower-canonical n name lower e in (lower, rest.0, rest.1)
