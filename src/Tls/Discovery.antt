-- ===== src/Tls/Discovery.antt =====
-- src/tls/store.rs: `discover_pairs`, the files of the directory as certificates and keys by id.
use edge_gateway.Prelude.{
  ◌≡◌, ◌↔◌, ◌∙◌, sym, inl, inr, Bool, true, false, Option, none, some, List, [], ◌∷◌, ◌++◌, Result,
  ok, err, ◌>>=◌, ◌>>◌, refuse, ok_or, Option-cases, arith, is_empty, nat_eq, list_eq,
}
use edge_gateway.Prelude.Text.{Text}
use edge_gateway.Prelude.Text.Order.{sort}
use edge_gateway.Prelude.Text.Suffix.{
  strip_suffix, strip_suffix-eq, strip_suffix-append, suffixes_overlap,
}
use edge_gateway.Prelude.Maps.{Map, get, contains_key, insert, remove}
use edge_gateway.Config.Tls.{TlsConfig, FileTlsConfig, validate_tls}
use edge_gateway.Config.Tls.Laws.{validated_suffixes}
use edge_gateway.Tls.Store.{
  StoreError, cannot_read, empty_id, duplicate_id, no_certificate_for, no_key_for, dedup,
}

-- An entry of the directory: whether it is a file, which may fail to be known; its name where that
-- is UTF-8; and its path.
pub record Entry : Type 0 where
  pub is_file : Result Text Bool
  pub file_name : Option Text
  pub path : Text

-- What the name of a file says: the id of a certificate, of a key, or neither.
pub data FileKind : Type 0 where
  certificate key : Text → FileKind
  other : FileKind

unfoldable pub classify : TlsConfig → Text → FileKind
classify c name = elim (strip_suffix name c.cert_suffix) [
  | some id ↦ certificate id
  | none ↦ elim (strip_suffix name c.key_suffix) [ some id ↦ key id | none ↦ other ]
]

-- The paths by id, which the loop fills.
abbrev pub Found : Type 0
Found = Map Text Text × Map Text Text

unfoldable pub add_file : TlsConfig → Found → Text → Text → Result StoreError Found
add_file c found name path = elim (classify c name) [
  | certificate id ↦ do
    refuse (is_empty id) (empty_id name)
    refuse (contains_key id found.0) (duplicate_id id)
    ok (insert id path found.0, found.1)
  | key id ↦ do
    refuse (is_empty id) (empty_id name)
    refuse (contains_key id found.1) (duplicate_id id)
    ok (found.0, insert id path found.1)
  | other ↦ ok found
]

unfoldable pub scan : TlsConfig → Found → List Entry → Result StoreError Found
scan c found [] = ok found
scan c found (entry ∷ entries) = elim entry.is_file [
  | err reason ↦ err (cannot_read entry.path reason)
  | ok false ↦ scan c found entries
  | ok true ↦ elim entry.file_name [
    | none ↦ scan c found entries
    | some name ↦ do next ← add_file c found name entry.path; scan c next entries
  ]
]

-- The loop over the sorted ids.
unfoldable pub pair_up : Found → List Text → Result StoreError (List (Text × Text × Text))
pair_up found [] = ok []
pair_up found (id ∷ ids) = do
  cert_path ← ok_or (get id found.0) (no_certificate_for id)
  key_path ← ok_or (get id found.1) (no_key_for id)
  rest ← pair_up (remove id found.0, remove id found.1) ids
  ok ((id, cert_path, key_path) ∷ rest)

unfoldable pub ids_of : Map Text Text → List Text
ids_of [] = []
ids_of ((id, path) ∷ m) = id ∷ ids_of m

unfoldable pub discover_pairs :
    TlsConfig → List Entry → Result StoreError (List (Text × Text × Text))
discover_pairs c entries = do
  found ← scan c ([], []) entries
  pair_up found (dedup (sort (ids_of found.0 ++ ids_of found.1)))

-- Under an accepted section `tls`, a file is taken for the certificate of an id exactly when its name is
-- the id and the suffix of certificates, and for the key of an id exactly when it is the id and the
-- suffix of keys, which are the names that the certificates are written under.
pub classify_iff :
    (directory : Text) (f : FileTlsConfig) (c : TlsConfig) (name id : Text)
    → validate_tls directory f ≡ ok c
    → ((classify c name ≡ certificate id) ↔ (name ≡ id ++ c.cert_suffix))
      × ((classify c name ≡ key id) ↔ (name ≡ id ++ c.key_suffix))
unfolding classify
classify_iff directory f c name id h =
    let apart = validated_suffixes directory f c h in
    elim (Option-cases (strip_suffix name c.cert_suffix)) [
      | inr (x, cert) ↦
          let whole : name ≡ x ++ c.cert_suffix = strip_suffix-eq name c.cert_suffix x cert in
          (
            (
              λ e. let same : x ≡ id = ground arith in rw (← same) whole,
              λ e.
                  let found = strip_suffix-append id c.cert_suffix in
                  ground (arith, rw (← e) at found),
            ),
            (
              λ e. absurd (ground arith),
              λ e. absurd (elim (suffixes_overlap x id c.cert_suffix c.key_suffix (sym whole ∙ e)) [
                | inl one ↦ cc
                | inr two ↦ cc
              ]),
            ),
          )
      | inl absent ↦ (
        (
          λ e. absurd (ground arith),
          λ e.
              let found = strip_suffix-append id c.cert_suffix in
              absurd (cc (absent, rw (← e) at found)),
        ),
        (
          λ e. strip_suffix-eq name c.key_suffix id (ground arith),
          λ e. let found = strip_suffix-append id c.key_suffix in ground (arith, rw (← e) at found),
        ),
      )
    ]
