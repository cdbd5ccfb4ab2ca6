-- ===== src/Tls/Tests.antt =====
-- Runs of the certificate store, and its theorems at a directory of two certificates.
use edge_gateway.Prelude.{
  ◌≡◌, ◌↔◌, refl, true, some, none, List, [], ◌∷◌, ◌++◌, ok, err, ℕ, nat_eq, list_eq,
}
use edge_gateway.Prelude.Text.{Text, text, text_run, strip_prefix}
use edge_gateway.Prelude.Text.Suffix.{strip_suffix, ends_with}
use edge_gateway.Prelude.Text.Order.{text_le, insert_sorted, sort}
use edge_gateway.Prelude.Maps
use edge_gateway.Net.Endpoint.{trim_end}
use edge_gateway.Proxy.Config.{join}
use edge_gateway.Config.{
  validate_path, validate_suffix, validate_certificate_id, resolve_config_path,
}
use edge_gateway.Config.Tls.{
  TlsConfig, FileTlsConfig, validate_tls, default_cert_suffix, default_key_suffix,
}
use edge_gateway.Tls.{CertificateLib}
use edge_gateway.Tls.Store.{
  owned_by, CertificateIndex, PairFiles, dedup, check_names, first_owned, resolve_wildcard,
  resolve_server_name, parse_leaf_metadata, parse_certificate_pair, claim_names, read_pair,
  load_pairs, load_index, check_owners, validate_replacement, resolve,
}
use edge_gateway.Tls.Choice.{IsChosen, resolve_iff}
use edge_gateway.Tls.Discovery.{
  Entry, classify, certificate, key, add_file, scan, pair_up, ids_of, discover_pairs, classify_iff,
}

-- Opens what a run of the store calls.
run : Unit {0}
unfolding text_run strip_suffix ends_with text_le insert_sorted sort trim_end join validate_path
    validate_suffix validate_certificate_id resolve_config_path validate_tls dedup check_names
    first_owned resolve_wildcard resolve_server_name parse_leaf_metadata parse_certificate_pair
    claim_names read_pair load_pairs load_index check_owners validate_replacement resolve classify
    add_file scan pair_up ids_of discover_pairs Maps.get Maps.insert Maps.remove Maps.contains_key
run = tt

-- A certificate is the text of its one name, and its key is the file.
abbrev lib : CertificateLib
lib = record {
  Der = Text;
  PrivateKey = Unit {0};
  CertifiedKey = Text;
  Timestamp = ℕ;
  read = λ path. ok path;
  certs = λ t. ok (t ∷ []);
  private_key = λ t. ok (some tt);
  from_der = λ chain private. ok (text "key of " ++ (elim chain [ [] ↦ [] | c ∷ cs ↦ c ]));
  dns_names = λ c. ok (c ∷ []);
  not_after = λ c. 0;
}

abbrev file_config : FileTlsConfig
file_config = record {
  cert_dir = text "/c";
  cert_suffix = default_cert_suffix;
  key_suffix = default_key_suffix;
  default_certificate = none;
}

abbrev config : TlsConfig
config = record {
  cert_dir = text "/c";
  cert_suffix = default_cert_suffix;
  key_suffix = default_key_suffix;
  default_certificate = none;
}

config_test : validate_tls (text "/") file_config ≡ ok config
unfolding run
config_test = refl

abbrev entry : Text → Text → Entry
entry name path = record { is_file = ok true; file_name = some name; path = path }

discover_test :
    discover_pairs config (
      entry (text "a.key.pem") (text "k")
      ∷ entry (text "x.txt") (text "x")
      ∷ entry (text "a.fullchain.pem") (text "A.example.")
      ∷ [])
    ≡ ok ((text "a", text "A.example.", text "k") ∷ [])
unfolding run
discover_test = refl

abbrev pairs : List (PairFiles lib)
pairs = (text "a", text "A.example.", text "ka") ∷ (text "w", text "*.a.example", text "kw") ∷ []

abbrev index : CertificateIndex lib
index = record {
  exact = (text "a.example", text "key of A.example.") ∷ [];
  wildcard = (text "a.example", text "key of *.a.example") ∷ [];
  default = none;
  metadata =
      (
        text "a",
        record {
          dns_names = text "a.example" ∷ [];
          leaf_certificate = text "A.example.";
          not_after_unix = 0;
        },
      )
      ∷ (
        text "w",
        record {
          dns_names = text "*.a.example" ∷ [];
          leaf_certificate = text "*.a.example";
          not_after_unix = 0;
        },
      )
      ∷ [];
}

index_test : load_index lib config pairs ≡ ok index
unfolding run
index_test = refl

replacement_test :
    validate_replacement lib index (text "b") (text "a.example") (text "kb")
    ≡ err (owned_by (text "b") (text "a.example") (text "a"))
unfolding run
replacement_test = refl

no_wildcard : strip_prefix (text "www.a.example") (text "*.") ≡ none
unfolding run
no_wildcard = refl

resolve_iff_example :
    (resolve lib index (some (text "www.a.example")) ≡ some (text "key of *.a.example"))
    ↔ IsChosen lib pairs index.default (text "www.a.example") (text "key of *.a.example")
unfolding run
resolve_iff_example =
    resolve_iff lib config pairs index (text "www.a.example") (text "key of *.a.example") index_test
      no_wildcard

classify_iff_example :
    ((classify config (text "a.key.pem") ≡ certificate (text "a"))
      ↔ (text "a.key.pem" ≡ text "a" ++ config.cert_suffix))
    × ((classify config (text "a.key.pem") ≡ key (text "a"))
        ↔ (text "a.key.pem" ≡ text "a" ++ config.key_suffix))
classify_iff_example =
    classify_iff (text "/") file_config config (text "a.key.pem") (text "a") config_test
