-- ===== src/Config/Acme.antt =====
-- src/config/mod.rs: the section `acme`.
pub mod Domains
pub mod Laws
use edge_gateway.Prelude.{
  ℕ, ◌+◌, ◌*◌, String, Bool, true, false, not, ◌&&◌, ◌||◌, Option, none, some, List, [], ◌∷◌, map,
  Result, ok, err, ◌>>=◌, ◌>>◌, refuse, guard, map_err, if◌then◌else◌, ltb, is_empty, is_some, any,
  all, contains, length, ◌==◌, nat_eq, list_eq,
}
use edge_gateway.Prelude.Text.{
  Text, text, chars, is_whitespace, is_alphanumeric, to_lower, starts_with, ends_with_byte, split,
}
use edge_gateway.Prelude.Text.Trim.{trim}
use edge_gateway.Prelude.Text.Order.{sort}
use edge_gateway.Net.{v4}
use edge_gateway.Net.Parse.{parse_ip}
use edge_gateway.Net.Endpoint.{SocketAddr, trim_end}
use edge_gateway.Routing.{is_ascii}
use edge_gateway.Config.{
  ConfigError, invalid, message, certificate_id, duplicate_certificate, no_domains, bad_domain,
  duplicate_domain, domain_taken, validate_path, validate_certificate_id, resolve_config_path,
}

-- `FileAcmeEnvironment` has the same two values.
pub data AcmeEnvironment : Type 0 where
  production staging : AcmeEnvironment

pub record AcmeCertificateConfig : Type 0 where
  pub id : Text
  pub domains : List Text

pub record AcmeConfig : Type 0 where
  pub enabled : Bool
  pub http01_listen : SocketAddr
  pub email : Option Text
  pub environment : AcmeEnvironment
  pub state_dir : Text
  pub fallback_renew_before : ℕ
  pub check_interval : ℕ
  pub certificates : List AcmeCertificateConfig

unfoldable pub manages_certificate : AcmeConfig → Text → Bool
manages_certificate c id = any (λ certificate. certificate.id == id) c.certificates

-- 0.0.0.0:80
abbrev pub default_http01_listen : SocketAddr
default_http01_listen = record { ip = v4 0; port = 80 }

-- `AcmeConfig::disabled`, for a file without the section.
abbrev pub disabled : Text → AcmeConfig
disabled directory = record {
  enabled = false;
  http01_listen = default_http01_listen;
  email = none;
  environment = production;
  state_dir = resolve_config_path directory (text "state/acme");
  fallback_renew_before = 30 * 24 * 60 * 60;
  check_interval = 12 * 60 * 60;
  certificates = [];
}

pub record FileAcmeCertificateConfig : Type 0 where
  pub id : Text
  pub domains : List Text

pub record FileAcmeConfig : Type 0 where
  pub enabled : Bool
  pub http01_listen : SocketAddr
  pub email : Option Text
  pub environment : AcmeEnvironment
  pub state_dir : Text
  pub fallback_renew_before_days : ℕ
  pub check_interval_hours : ℕ
  pub certificates : List FileAcmeCertificateConfig

-- The loop over the labels of a domain.
unfoldable pub check_domain_labels : List Text → Result String (Unit {0})
check_domain_labels [] = ok tt
check_domain_labels (label ∷ labels) = do
  refuse (is_empty label || ltb 63 (length label))
      "DNS labels must contain between 1 and 63 characters"
  refuse (starts_with label (b'-' ∷ []) || ends_with_byte label b'-')
      "DNS labels must not start or end with '-'"
  guard (all (λ b. is_alphanumeric b || b == b'-') label)
      "DNS labels may contain only ASCII letters, digits and '-'"
  check_domain_labels labels

unfoldable pub normalize_domain : Text → Result String Text
normalize_domain value = do
  let domain = map to_lower (trim_end b'.' (trim value))
  refuse (is_empty domain) "domain must not be empty"
  refuse (starts_with domain (text "*."))
      "wildcard domains require DNS-01 and are not supported by built-in HTTP-01"
  refuse (ltb 253 (length domain) || not (is_ascii domain))
      "domain must be an ASCII DNS name no longer than 253 characters"
  refuse (is_some (parse_ip domain)) "IP identifiers are not supported by built-in ACME"
  check_domain_labels (split b'.' domain)
  ok domain

-- The loop over the domains of one certificate, with the domains of this one and of all before; the
-- normalized domains in the order of the file, and all domains after.
unfoldable pub add_domains :
    (index : ℕ) (id : Text) (local managed : List Text)
    → List Text
    → Result ConfigError (List Text × List Text)
add_domains index id local managed [] = ok ([], managed)
add_domains index id local managed (raw ∷ raws) = do
  domain ← map_err (λ reason. invalid (bad_domain index raw reason)) (normalize_domain raw)
  refuse (contains domain local) (invalid (duplicate_domain domain id))
  refuse (contains domain managed) (invalid (domain_taken domain))
  rest ← add_domains index id (domain ∷ local) (domain ∷ managed) raws
  ok (domain ∷ rest.0, rest.1)

-- The loop over the certificates, with the ids and the domains before.
unfoldable pub add_certificates :
    (index : ℕ) (ids managed : List Text)
    → List FileAcmeCertificateConfig
    → Result ConfigError (List AcmeCertificateConfig)
add_certificates index ids managed [] = ok []
add_certificates index ids managed (c ∷ cs) = do
  validate_certificate_id (certificate_id index) c.id
  refuse (contains c.id ids) (invalid (duplicate_certificate c.id))
  refuse (is_empty c.domains) (invalid (no_domains index))
  added ← add_domains index c.id [] managed c.domains
  rest ← add_certificates (index + 1) (c.id ∷ ids) added.1 cs
  ok (record { id = c.id; domains = sort added.0 } ∷ rest)

-- `map(trim).filter(not empty)`
unfoldable pub clean_email : Option Text → Option Text
clean_email none = none
clean_email (some value) = let short = trim value in if is_empty short then none else some short

unfoldable pub is_bad_email : Option Text → Bool
is_bad_email none = false
is_bad_email (some value) = any is_whitespace (chars value) || not (contains b'@' value)

unfoldable pub validate_acme : Text → FileAcmeConfig → Result ConfigError AcmeConfig
validate_acme directory f = do
  validate_path "acme.state_dir" f.state_dir
  refuse (f.fallback_renew_before_days == 0 || ltb 90 f.fallback_renew_before_days)
      (invalid (message "acme.fallback_renew_before_days must be between 1 and 90"))
  refuse (f.check_interval_hours == 0 || ltb (7 * 24) f.check_interval_hours)
      (invalid (message "acme.check_interval_hours must be between 1 and 168"))
  let email = clean_email f.email
  refuse (f.enabled && not (is_some email))
      (invalid (message "acme.email is required when ACME is enabled"))
  refuse (is_bad_email email) (invalid (message "acme.email must be a plain email address"))
  refuse (f.enabled && is_empty f.certificates) (
      invalid (
        message
          "acme.certificates must contain at least one managed certificate when ACME is enabled"))
  certificates ← add_certificates 0 [] [] f.certificates
  ok (record {
    enabled = f.enabled;
    http01_listen = f.http01_listen;
    email = email;
    environment = f.environment;
    state_dir = resolve_config_path directory f.state_dir;
    fallback_renew_before = f.fallback_renew_before_days * 24 * 60 * 60;
    check_interval = f.check_interval_hours * 60 * 60;
    certificates = certificates;
  })
