-- ===== src/Tls/Index.antt =====
-- src/tls/store.rs: which certificate the index of the names has for a name.
use edge_gateway.Prelude.{
  ◌≡◌, ◌↔◌, ◌⊎◌, inl, inr, refl, true, false, Option, none, some, List, [], ◌∷◌, ◌++◌, ok,
  Result-cases, Bool-cases, Option-cases, Any, arith, if◌then◌else◌, contains, ◌==◌, ==_iff, nat_eq,
  list_eq,
}
use edge_gateway.Prelude.Text.{Text, text, strip_prefix}
use edge_gateway.Prelude.Maps.{get, insert, get-insert, contains_key}
use edge_gateway.Prelude.Text.Suffix.{strip_prefix-eq}
use edge_gateway.Tls.{CertificateLib}
use edge_gateway.Tls.Store.{
  CertificateMetadata, Claims, Loading, PairFiles, claim_names, read_pair, load_pairs, no_pairs,
}

apart :
    (n k : Text)
    → strip_prefix n (text "*.") ≡ none
    → (t : Text) → strip_prefix k (text "*.") ≡ some t
    → (n == k) ≡ false
apart n k plain t wild = elim (Bool-cases (n == k)) [
  | inl same ↦ let e : n ≡ k = (==_iff n k).0 same in absurd (cc)
  | inr other ↦ other
]

apart_sym :
    (n k : Text)
    → strip_prefix k (text "*.") ≡ none
    → (t : Text) → strip_prefix n (text "*.") ≡ some t
    → (n == k) ≡ false
apart_sym n k plain t wild = elim (Bool-cases (n == k)) [
  | inl same ↦ let e : n ≡ k = (==_iff n k).0 same in absurd (cc)
  | inr other ↦ other
]

-- Two wildcard names are the same when their suffixes are.
same_wildcard :
    (n k s t : Text)
    → strip_prefix n (text "*.") ≡ some s
    → strip_prefix k (text "*.") ≡ some t
    → (n == k) ≡ (s == t)
same_wildcard n k s t a b =
    let whole : n ≡ text "*." ++ s = strip_prefix-eq n (text "*.") s a in
    let other : k ≡ text "*." ++ t = strip_prefix-eq k (text "*.") t b in rw (whole, other) refl

module _ (lib : CertificateLib) where
  -- The key for a name as a certificate writes it: a wildcard or not.
  unfoldable pub claimed : Claims lib → Text → Option lib.CertifiedKey
  claimed c name = elim (strip_prefix name (text "*.")) [
    | some suffix ↦ get suffix c.wildcard
    | none ↦ get name c.exact
  ]

  -- What claiming one name does.
  abbrev claim : lib.CertifiedKey → Claims lib → Text → Claims lib
  claim key c name = elim (strip_prefix name (text "*.")) [
    | some suffix ↦ record c { wildcard = insert suffix key c.wildcard }
    | none ↦ record c { exact = insert name key c.exact }
  ]

  claimed-claim :
      (key : lib.CertifiedKey) (c : Claims lib) (name k : Text)
      → claimed (claim key c name) k ≡ (if name == k then some key else claimed c k)
  unfolding claimed
  claimed-claim key c name k = elim (Option-cases (strip_prefix name (text "*."))) [
    | inl plain ↦ elim (Option-cases (strip_prefix k (text "*."))) [
      | inl also ↦ ground (arith, get-insert name k key c.exact)
      | inr (t, other) ↦ ground (arith, apart name k plain t other)
    ]
    | inr (s, wild) ↦ elim (Option-cases (strip_prefix k (text "*."))) [
      | inl other ↦ ground (arith, apart_sym name k other s wild)
      | inr (t, also) ↦
          ground (arith, same_wildcard name k s t wild also, get-insert s t key c.wildcard)
    ]
  ]

  claim_names-Round :
      (key : lib.CertifiedKey) (c c' : Claims lib) (name : Text) (names : List Text)
      → claim_names lib key c (name ∷ names) ≡ ok c'
      → (claimed c name ≡ none) × (claim_names lib key (claim key c name) names ≡ ok c')
  unfolding claim_names claimed contains_key
  claim_names-Round key c c' name names h = elim (Option-cases (strip_prefix name (text "*."))) [
    | inl plain ↦ ground arith
    | inr (s, wild) ↦ ground arith
  ]

  -- A list of names without repetition, none of them claimed before, goes to the key; other names stay.
  claim_names-claimed :
      (key : lib.CertifiedKey) (c c' : Claims lib) (names : List Text) (k : Text)
      → claim_names lib key c names ≡ ok c'
      → (claimed c' k ≡ (if contains k names then some key else claimed c k))
        × (contains k names ≡ true → claimed c k ≡ none)
  unfolding claim_names
  claim_names-claimed key c c' [] k h = ground arith
  claim_names-claimed key c c' (name ∷ names) k h =
      let (fresh, rest) = claim_names-Round key c c' name names h in
      let ih = claim_names-claimed key (claim key c name) c' names k rest in
      let one = claimed-claim key c name k in ground (arith, ==_iff name k)

  -- A pair of files is of a certificate that has the name, with its key.
  pub record Owns (name : Text) (key : lib.CertifiedKey) (pair : PairFiles lib) : Type 0 where
    pub metadata : CertificateMetadata lib
    pub readable : read_pair lib pair ≡ ok (key, metadata)
    pub named : contains name metadata.dns_names ≡ true

  load_pairs-Round :
      (l l' : Loading lib) (pair : PairFiles lib) (pairs : List (PairFiles lib))
      → load_pairs lib l (pair ∷ pairs) ≡ ok l'
      → (key : lib.CertifiedKey) × (metadata : CertificateMetadata lib) × (next : Loading lib)
        × (read_pair lib pair ≡ ok (key, metadata))
        × (claim_names lib key l.claims metadata.dns_names ≡ ok next.claims)
        × (load_pairs lib next pairs ≡ ok l')
  unfolding load_pairs
  load_pairs-Round l l' pair pairs h = elim (Result-cases (read_pair lib pair)) [
    | inr (x, bad) ↦ absurd (ground arith)
    | inl ((key, metadata), read) ↦
        elim (Result-cases (claim_names lib key l.claims metadata.dns_names)) [
          | inr (x, bad) ↦ absurd (ground arith)
          | inl (claims, done) ↦ (
            key,
            metadata,
            record {
              claims = claims;
              keys_by_id = insert pair.0 key l.keys_by_id;
              metadata = insert pair.0 metadata l.metadata;
            },
            read,
            done,
            ground arith,
          )
        ]
  ]

  -- A claimed name stays with its key.
  load_pairs-stays :
      (l l' : Loading lib) (pairs : List (PairFiles lib)) (name : Text) (key : lib.CertifiedKey)
      → load_pairs lib l pairs ≡ ok l'
      → claimed l.claims name ≡ some key
      → claimed l'.claims name ≡ some key
  unfolding load_pairs
  load_pairs-stays l l' [] name key h e = ground arith
  load_pairs-stays l l' (pair ∷ pairs) name key h e =
      let (k, m, next, read, done, rest) = load_pairs-Round l l' pair pairs h in
      load_pairs-stays next l' pairs name key rest
        (ground (arith, claim_names-claimed k l.claims next.claims m.dns_names name done))

  Owns-claimed :
      (l l' : Loading lib) (pairs : List (PairFiles lib)) (name : Text) (key : lib.CertifiedKey)
      → load_pairs lib l pairs ≡ ok l'
      → Any (Owns name key) pairs
      → claimed l'.claims name ≡ some key
  Owns-claimed l l' [] name key h o = elim o [ ]
  Owns-claimed l l' (pair ∷ pairs) name key h (inr more) =
      let (k, m, next, read, done, rest) = load_pairs-Round l l' pair pairs h in
      Owns-claimed next l' pairs name key rest more
  Owns-claimed l l' (pair ∷ pairs) name key h (inl own) =
      let (k, m, next, read, done, rest) = load_pairs-Round l l' pair pairs h in
      load_pairs-stays next l' pairs name key rest (
        ground (
          arith,
          read,
          own.readable,
          own.named,
          claim_names-claimed k l.claims next.claims m.dns_names name done,
        ))

  claimed-Owns :
      (l l' : Loading lib) (pairs : List (PairFiles lib)) (name : Text) (key : lib.CertifiedKey)
      → load_pairs lib l pairs ≡ ok l'
      → claimed l'.claims name ≡ some key
      → (claimed l.claims name ≡ some key) ⊎ Any (Owns name key) pairs
  unfolding load_pairs
  claimed-Owns l l' [] name key h e = inl (ground arith)
  claimed-Owns l l' (pair ∷ pairs) name key h e =
      let (k, m, next, read, done, rest) = load_pairs-Round l l' pair pairs h in
      elim (claimed-Owns next l' pairs name key rest e) [
        | inr more ↦ inr (inr more)
        | inl here ↦ elim (Bool-cases (contains name m.dns_names)) [
          | inr other ↦
              inl (ground (arith, claim_names-claimed k l.claims next.claims m.dns_names name done))
          | inl listed ↦
              let same : k ≡ key =
                ground (arith, claim_names-claimed k l.claims next.claims m.dns_names name done) in
              inr (inl (record { metadata = m; readable = rw (← same) read; named = listed }))
        ]
      ]

  -- The maps of an index have a key for a name exactly when a certificate with that key has the name.
  pub claimed_iff :
      (pairs : List (PairFiles lib)) (l : Loading lib) (name : Text) (key : lib.CertifiedKey)
      → load_pairs lib (no_pairs lib) pairs ≡ ok l
      → (claimed l.claims name ≡ some key) ↔ Any (Owns name key) pairs
  unfolding claimed get
  claimed_iff pairs l name key h = (
    λ e. elim (claimed-Owns (no_pairs lib) l pairs name key h e) [
      | inr owned ↦ owned
      | inl impossible ↦ absurd (ground arith)
    ],
    λ o. Owns-claimed (no_pairs lib) l pairs name key h o,
  )
