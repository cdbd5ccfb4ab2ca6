-- ===== src/Tls/Store.antt =====
-- src/tls/store.rs and src/tls/resolver.rs: the index of the certificates and the choice of one.
use edge_gateway.Prelude.{
  ◌||◌, Option, none, some, List, [], ◌∷◌, map, Result, ok, err, ◌>>=◌, ◌>>◌, refuse, ok_or,
  map_err, or_else, if◌then◌else◌, is_empty, contains, head?, ◌==◌, nat_eq, list_eq,
}
use edge_gateway.Prelude.Text.{Text, text, to_lower, strip_prefix, split_once}
use edge_gateway.Prelude.Text.Order.{sort}
use edge_gateway.Prelude.Maps.{Map, get, contains_key, insert}
use edge_gateway.Net.Endpoint.{trim_end}
use edge_gateway.Config.Tls.{TlsConfig}
use edge_gateway.Tls.{CertificateLib}

-- The messages, with the id, the name or the reason that is formatted in.
pub data StoreError : Type 0 where
  cannot_read bad_chain bad_key incompatible bad_leaf : Text → Text → StoreError
  no_certificates no_private_key no_dns_names : Text → StoreError
  unsupported_wildcard : Text → Text → StoreError
  claimed_twice : Text → StoreError
  owned_by : Text → Text → Text → StoreError
  empty_id duplicate_id : Text → StoreError
  no_certificate_for no_key_for : Text → StoreError

-- `Vec::dedup`: equal neighbours become one.
unfoldable pub dedup : List Text → List Text
dedup [] = []
dedup (t ∷ []) = t ∷ []
dedup (s ∷ t ∷ ts) = if s == t then dedup (t ∷ ts) else s ∷ dedup (t ∷ ts)

-- The loop over the names of a certificate.
unfoldable pub check_names : Text → List Text → Result StoreError (Unit {0})
check_names id [] = ok tt
check_names id (name ∷ names) = do
  refuse
      (elim (strip_prefix name (text "*.")) [
        | some suffix ↦ is_empty suffix || contains b'*' suffix
        | none ↦ contains b'*' name
      ])
      (unsupported_wildcard id name)
  check_names id names

-- `name.trim_end_matches('.').to_ascii_lowercase()`
abbrev pub normalize_name : Text → Text
normalize_name name = map to_lower (trim_end b'.' name)

unfoldable pub resolve_wildcard : {T : Type 0} → Map Text T → Text → Option T
resolve_wildcard wildcard server_name = elim (split_once b'.' server_name) [
  | none ↦ none
  | some (label, suffix) ↦ get suffix wildcard
]

unfoldable pub resolve_server_name :
    {T : Type 0} → Map Text T → Map Text T → Option T → Text → Option T
resolve_server_name exact wildcard default server_name =
    or_else (or_else (get server_name exact) (resolve_wildcard wildcard server_name)) default

-- The first of the names that stands among the owned ones.
unfoldable pub first_owned : List Text → List Text → Option Text
first_owned owned [] = none
first_owned owned (name ∷ names) =
    if contains name owned then some name else first_owned owned names

module _ (lib : CertificateLib) where
  pub record CertificateMetadata : Type 0 where
    pub dns_names : List Text
    pub leaf_certificate : lib.Der
    pub not_after_unix : lib.Timestamp

  pub record CertificateIndex : Type 0 where
    pub exact : Map Text lib.CertifiedKey
    pub wildcard : Map Text lib.CertifiedKey
    pub default : Option lib.CertifiedKey
    pub metadata : Map Text CertificateMetadata

  unfoldable pub parse_leaf_metadata : Text → lib.Der → Result StoreError CertificateMetadata
  parse_leaf_metadata id leaf = do
    raw ← map_err (bad_leaf id) (lib.dns_names leaf)
    let names = dedup (sort (map normalize_name raw))
    refuse (is_empty names) (no_dns_names id)
    check_names id names
    ok (record { dns_names = names; leaf_certificate = leaf; not_after_unix = lib.not_after leaf })

  unfoldable pub parse_certificate_pair :
      (id certificate key : Text) → Result StoreError (lib.CertifiedKey × CertificateMetadata)
  parse_certificate_pair id certificate key = do
    certificates ← map_err (bad_chain id) (lib.certs certificate)
    leaf ← ok_or (head? certificates) (no_certificates id)
    found ← map_err (bad_key id) (lib.private_key key)
    private_key ← ok_or found (no_private_key id)
    certified_key ← map_err (incompatible id) (lib.from_der certificates private_key)
    metadata ← parse_leaf_metadata id leaf
    ok (certified_key, metadata)

  -- The maps by name, which the loops fill.
  pub record Claims : Type 0 where
    pub exact : Map Text lib.CertifiedKey
    pub wildcard : Map Text lib.CertifiedKey

  -- The loop over the names of one certificate. An entry that was there before ends the loading, so
  -- that its replacement is not seen.
  unfoldable pub claim_names : lib.CertifiedKey → Claims → List Text → Result StoreError Claims
  claim_names key c [] = ok c
  claim_names key c (name ∷ names) = elim (strip_prefix name (text "*.")) [
    | some suffix ↦ do
      refuse (contains_key suffix c.wildcard) (claimed_twice name)
      claim_names key (record c { wildcard = insert suffix key c.wildcard }) names
    | none ↦ do
      refuse (contains_key name c.exact) (claimed_twice name)
      claim_names key (record c { exact = insert name key c.exact }) names
  ]

  pub record Loading : Type 0 where
    pub claims : Claims
    pub keys_by_id : Map Text lib.CertifiedKey
    pub metadata : Map Text CertificateMetadata

  -- An id with the paths of its two files.
  abbrev pub PairFiles : Type 0
  PairFiles = Text × Text × Text

  unfoldable pub read_pair : PairFiles → Result StoreError (lib.CertifiedKey × CertificateMetadata)
  read_pair (id, cert_path, key_path) = do
    certificate ← map_err (cannot_read cert_path) (lib.read cert_path)
    key ← map_err (cannot_read key_path) (lib.read key_path)
    parse_certificate_pair id certificate key

  unfoldable pub load_pairs : Loading → List PairFiles → Result StoreError Loading
  load_pairs l [] = ok l
  load_pairs l (pair ∷ pairs) = do
    parsed ← read_pair pair
    claims ← claim_names parsed.0 l.claims parsed.1.dns_names
    load_pairs
        (record {
          claims = claims;
          keys_by_id = insert pair.0 parsed.0 l.keys_by_id;
          metadata = insert pair.0 parsed.1 l.metadata;
        })
        pairs

  abbrev pub no_pairs : Loading
  no_pairs = record {
    claims = record { exact = []; wildcard = [] };
    keys_by_id = [];
    metadata = [];
  }

  -- `load_index` behind the discovery of the pairs.
  unfoldable pub load_index : TlsConfig → List PairFiles → Result StoreError CertificateIndex
  load_index config pairs = do
    l ← load_pairs no_pairs pairs
    ok (record {
      exact = l.claims.exact;
      wildcard = l.claims.wildcard;
      default = elim config.default_certificate [ none ↦ none | some id ↦ get id l.keys_by_id ];
      metadata = l.metadata;
    })

  -- The loop of `validate_replacement` over the certificates in use.
  unfoldable pub check_owners :
      Text → List Text → Map Text CertificateMetadata → Result StoreError (Unit {0})
  check_owners id names [] = ok tt
  check_owners id names ((other, existing) ∷ rest) =
      let later = check_owners id names rest in
      if other == id then later else (elim (first_owned existing.dns_names names) [
        | some name ↦ err (owned_by id name other)
        | none ↦ later
      ])

  unfoldable pub validate_replacement :
      CertificateIndex → (id certificate key : Text) → Result StoreError CertificateMetadata
  validate_replacement index id certificate key = do
    candidate ← parse_certificate_pair id certificate key
    check_owners id candidate.1.dns_names index.metadata
    ok candidate.1

  -- `DynamicCertResolver::resolve`, with the server name of the handshake.
  unfoldable pub resolve : CertificateIndex → Option Text → Option lib.CertifiedKey
  resolve index none = index.default
  resolve index (some name) =
      resolve_server_name index.exact index.wildcard index.default (normalize_name name)
