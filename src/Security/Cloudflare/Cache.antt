-- ===== src/Security/Cloudflare/Cache.antt =====
-- src/security/cloudflare.rs: which cache files are accepted, and as what.
use edge_gateway.Prelude.{
  length-append, ◌≤◌, ◌≡◌, ◌∙◌, ◌↔◌, sym, refl, Bool, true, false, not, ◌||◌, List, [], ◌∷◌, ◌++◌,
  map, ok, contains, length, any, nat_eq, list_eq, arith, Result-cases, inl, inr, ltb,
}
use mathlib.Core.List.{append-nil, append_assoc}
use edge_gateway.Prelude.Text.{Text}
use edge_gateway.Security.Network.{IpNetwork}
use edge_gateway.Security.Cloudflare.{
  max_file_bytes, max_entries, read_value, cache_values, parse_values, parse_networks,
}

-- No value stands among the seen ones or those before it.
abbrev pub IsFresh : List Text → List Text → Type 0
IsFresh seen [] = Unit
IsFresh seen (value ∷ values) = (contains value seen ≡ false) × IsFresh (value ∷ seen) values

abbrev pub is_v4 : Bool × IpNetwork → Bool
is_v4 read = read.0

abbrev pub network_of : Bool × IpNetwork → IpNetwork
network_of read = read.1

or_assoc : (a b c : Bool) → ((a || b) || c) ≡ (a || (b || c))
or_assoc a b c = ground arith

or_false : (a : Bool) → (a || false) ≡ a
or_false a = ground arith

parse_values-read :
    (seen : List Text) (networks : List IpNetwork) (v4 v6 : Bool) (values : List Text)
    (out : List IpNetwork) (o4 o6 : Bool)
    → parse_values seen networks v4 v6 values ≡ ok (out, o4, o6)
    → IsFresh seen values
      × (length networks ≤ max_entries → length out ≤ max_entries)
      × ((read : List (Bool × IpNetwork)) × (map read_value values ≡ map ok read)
          × (out ≡ networks ++ map network_of read)
          × (o4 ≡ v4 || any is_v4 read)
          × (o6 ≡ v6 || any (λ r. not (is_v4 r)) read))
unfolding parse_values
parse_values-read seen networks v4 v6 [] out o4 o6 h = (
  tt,
  ground arith,
  ([], refl, (ground arith) ∙ sym (append-nil networks), ground arith, ground arith),
)
parse_values-read seen networks v4 v6 (value ∷ values) out o4 o6 h =
    elim (Result-cases (read_value value)) [
      | inl (read, same) ↦
          let rest =
            parse_values-read (value ∷ seen) (networks ++ (read.1 ∷ [])) (v4 || read.0)
              (v6 || not read.0) values out o4 o6 (ground arith) in
          (
            (ground arith, rest.0),
            ground (arith, rest.1),
            (
              read ∷ rest.2.0,
              rw (same, rest.2.1) refl,
              rest.2.2 ∙ append_assoc networks (read.1 ∷ []) (map network_of rest.2.0),
              rest.2.3 ∙ ground arith,
              rest.2.4 ∙ ground arith,
            ),
          )
      | inr (e, same) ↦ ground arith
    ]

read-parse_values :
    (seen : List Text) (networks : List IpNetwork) (v4 v6 : Bool) (values : List Text)
    (read : List (Bool × IpNetwork))
    → IsFresh seen values
    → map read_value values ≡ map ok read
    → length (networks ++ map network_of read) ≤ max_entries
    → parse_values seen networks v4 v6 values
      ≡ ok (
        networks ++ map network_of read,
        v4 || any is_v4 read,
        v6 || any (λ r. not (is_v4 r)) read,
      )
unfolding parse_values
read-parse_values seen networks v4 v6 [] [] f e l =
    rw (append-nil networks, or_false v4, or_false v6) refl
read-parse_values seen networks v4 v6 [] (r ∷ read) f e l = ground arith
read-parse_values seen networks v4 v6 (value ∷ values) [] f e l = ground arith
read-parse_values seen networks v4 v6 (value ∷ values) (r ∷ read) f e l =
    let here : read_value value ≡ ok r = ground arith in
    let more = networks ++ (r.1 ∷ []) in
    let same = append_assoc networks (r.1 ∷ []) (map network_of read) in
    let small : ltb max_entries (length more) ≡ false = ground (
      arith,
      length-append networks (r.1 ∷ []),
      length-append networks (network_of r ∷ map network_of read),
    ) in
    let rest =
      read-parse_values (value ∷ seen) more (v4 || r.0) (v6 || not r.0) values read f.1
        (ground arith) (rw same l) in
    rw (f.0, here, small)
      (rest
        ∙ rw
            (
              same,
              or_assoc v4 r.0 (any is_v4 read),
              or_assoc v6 (not r.0) (any (λ q. not (is_v4 q)) read),
            )
            refl)

-- A cache file is accepted exactly when it has at most 256 KiB, its values are at most 4096, none of
-- them twice, each can be read, and there is one of each family; its networks are those of the values.
pub parse_networks_iff :
    (source : Text) (networks : List IpNetwork)
    → (parse_networks source ≡ ok networks) ↔ (
        (length source ≤ max_file_bytes)
        × IsFresh [] (cache_values source)
        × ((read : List (Bool × IpNetwork)) × (map read_value (cache_values source) ≡ map ok read)
            × (networks ≡ map network_of read)
            × (length networks ≤ max_entries)
            × (any is_v4 read ≡ true)
            × (any (λ r. not (is_v4 r)) read ≡ true)))
unfolding parse_networks
parse_networks_iff source networks = (
  λ h. elim (Result-cases (parse_values [] [] false false (cache_values source))) [
    | inl ((out, o4, o6), same) ↦
        let found = parse_values-read [] [] false false (cache_values source) out o4 o6 same in
        (
          ground arith,
          found.0,
          (found.2.0, found.2.1, ground arith, ground arith, ground arith, ground arith),
        )
    | inr (e, same) ↦ ground arith
  ],
  λ h.
      let values = cache_values source in
      let same = read-parse_values [] [] false false values h.2.0 h.1 h.2.1 (ground arith) in
      ground arith,
)
