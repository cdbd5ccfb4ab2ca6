-- ===== src/Tls/Choice.antt =====
-- src/tls/resolver.rs: the certificate that a connection gets.
use edge_gateway.Prelude.{
  ◌≡◌, ◌↔◌, ◌⊎◌, inl, inr, refl, Option, none, some, or_else, List, ◌++◌, ok, Result-cases,
  Option-cases, Any, arith, nat_eq, list_eq,
}
use edge_gateway.Prelude.Text.{Text, text, strip_prefix, split_once}
use edge_gateway.Prelude.Maps.{get}
use edge_gateway.Config.Tls.{TlsConfig}
use edge_gateway.Tls.{CertificateLib}
use edge_gateway.Tls.Store.{
  CertificateIndex, Loading, PairFiles, load_pairs, load_index, no_pairs, normalize_name, resolve,
  resolve_server_name, resolve_wildcard,
}
use edge_gateway.Tls.Index.{Owns, claimed, claimed_iff}

module _ (lib : CertificateLib) where
  -- A certificate with the key covers the name behind one label, by a wildcard.
  abbrev pub Covers : List (PairFiles lib) → Text → lib.CertifiedKey → Type 0
  Covers pairs name key =
      (label : Text) × (suffix : Text) × (split_once b'.' name ≡ some (label, suffix))
      × Any (Owns lib (text "*." ++ suffix) key) pairs

  -- The certificate that names the server, or else the one whose wildcard covers it, or else the
  -- default one.
  abbrev pub IsChosen :
      List (PairFiles lib) → Option lib.CertifiedKey → Text → lib.CertifiedKey → Type 0
  IsChosen pairs default name key =
      Any (Owns lib name key) pairs
      ⊎ (((k : lib.CertifiedKey) → ¬ Any (Owns lib name k) pairs)
          × (Covers pairs name key
              ⊎ (((k : lib.CertifiedKey) → ¬ Covers pairs name k) × (default ≡ some key))))

  resolve_wildcard_iff :
      (pairs : List (PairFiles lib)) (l : Loading lib) (name : Text) (key : lib.CertifiedKey)
      → load_pairs lib (no_pairs lib) pairs ≡ ok l
      → (resolve_wildcard l.claims.wildcard name ≡ some key) ↔ Covers pairs name key
  unfolding resolve_wildcard claimed strip_prefix
  resolve_wildcard_iff pairs l name key h = elim (Option-cases (split_once b'.' name)) [
    | inl whole ↦ (λ e. absurd (ground arith), λ (a, s, cut, o). absurd (cc))
    | inr ((label, suffix), cut) ↦
        let known = claimed_iff lib pairs l (text "*." ++ suffix) key h in
        (
          λ e. (label, suffix, cut, known.0 (ground arith)),
          λ (a, s, other, o).
              let same : suffix ≡ s = ground arith in
              let found = known.1 (rw (← same) at o) in ground arith,
        )
  ]

  exact_iff :
      (pairs : List (PairFiles lib)) (l : Loading lib) (name : Text) (key : lib.CertifiedKey)
      → load_pairs lib (no_pairs lib) pairs ≡ ok l
      → strip_prefix name (text "*.") ≡ none
      → (get name l.claims.exact ≡ some key) ↔ Any (Owns lib name key) pairs
  unfolding claimed
  exact_iff pairs l name key h plain =
      let known = claimed_iff lib pairs l name key h in
      (λ e. known.0 (ground arith), λ o. let found = known.1 o in ground arith)

  chosen_iff :
      {X : Type 0} (a b c : Option X) (key : X) (A B : X → Type 0)
      → ((k : X) → (a ≡ some k) ↔ A k)
      → ((k : X) → (b ≡ some k) ↔ B k)
      → (or_else (or_else a b) c ≡ some key)
        ↔ (A key ⊎ (((k : X) → ¬ A k) × (B key ⊎ (((k : X) → ¬ B k) × (c ≡ some key)))))
  chosen_iff (some x) b c key A B f g = (
    λ e. inl ((f key).0 e),
    λ s. elim s [ inl y ↦ (f key).1 y | inr (never, rest) ↦ absurd (never x ((f x).0 refl)) ],
  )
  chosen_iff none (some y) c key A B f g = (
    λ e. inr (λ k x. absurd (cc ((f k).1 x)), inl ((g key).0 e)),
    λ s. elim s [
      | inl x ↦ absurd (cc ((f key).1 x))
      | inr (never, inl z) ↦ (g key).1 z
      | inr (never, inr (none_b, e)) ↦ absurd (none_b y ((g y).0 refl))
    ],
  )
  chosen_iff none none c key A B f g = (
    λ e. inr (λ k x. absurd (cc ((f k).1 x)), inr (λ k y. absurd (cc ((g k).1 y)), e)),
    λ s. elim s [
      | inl x ↦ absurd (cc ((f key).1 x))
      | inr (never, inl z) ↦ absurd (cc ((g key).1 z))
      | inr (never, inr (none_b, e)) ↦ e
    ],
  )

  -- With an index that was loaded, a connection whose server name is no wildcard gets a key exactly when
  -- a certificate with the key has that name, with no dot behind and in lower case; or no certificate
  -- has it and one has the wildcard of its suffix; or neither is there and the key is the default.
  pub resolve_iff :
      (config : TlsConfig) (pairs : List (PairFiles lib)) (index : CertificateIndex lib)
      (server : Text) (key : lib.CertifiedKey)
      → load_index lib config pairs ≡ ok index
      → strip_prefix (normalize_name server) (text "*.") ≡ none
      → (resolve lib index (some server) ≡ some key)
        ↔ IsChosen pairs index.default (normalize_name server) key
  unfolding load_index resolve resolve_server_name
  resolve_iff config pairs index server key h plain =
      elim (Result-cases (load_pairs lib (no_pairs lib) pairs)) [
        | inr (x, bad) ↦ absurd (ground arith)
        | inl (l, loaded) ↦
            let name = normalize_name server in
            let exact_is : l.claims.exact ≡ index.exact = ground arith in
            let wild_is : l.claims.wildcard ≡ index.wildcard = ground arith in
            rw (← exact_is, ← wild_is)
              (chosen_iff (get name l.claims.exact) (resolve_wildcard l.claims.wildcard name)
                index.default key (λ k. Any (Owns lib name k) pairs) (λ k. Covers pairs name k)
                (λ k. exact_iff pairs l name k loaded plain)
                (λ k. resolve_wildcard_iff pairs l name k loaded))
      ]
