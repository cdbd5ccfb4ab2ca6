-- ===== src/Config/Tls.antt =====
-- src/config/mod.rs: the section `tls`, and the names of the files of a certificate.
pub mod Laws
use edge_gateway.Prelude.{
  Bool, ◌||◌, Option, none, some, ◌++◌, Result, ok, ◌>>=◌, ◌>>◌, refuse, ◌==◌, nat_eq, list_eq,
}
use edge_gateway.Prelude.Text.{Text, text}
use edge_gateway.Prelude.Text.Suffix.{ends_with}
use edge_gateway.Proxy.Config.{join}
use edge_gateway.Config.{
  ConfigError, invalid, message, field, validate_path, validate_suffix, validate_certificate_id,
  resolve_config_path,
}

pub record TlsConfig : Type 0 where
  pub cert_dir : Text
  pub cert_suffix : Text
  pub key_suffix : Text
  pub default_certificate : Option Text

pub record FileTlsConfig : Type 0 where
  pub cert_dir : Text
  pub cert_suffix : Text
  pub key_suffix : Text
  pub default_certificate : Option Text

abbrev pub default_cert_suffix : Text
default_cert_suffix = text ".fullchain.pem"

abbrev pub default_key_suffix : Text
default_key_suffix = text ".key.pem"

-- The two names of the files of a certificate, below the directory.
unfoldable pub cert_path : TlsConfig → Text → Text
cert_path c id = join c.cert_dir (id ++ c.cert_suffix)

unfoldable pub key_path : TlsConfig → Text → Text
key_path c id = join c.cert_dir (id ++ c.key_suffix)

unfoldable pub validate_tls : Text → FileTlsConfig → Result ConfigError TlsConfig
validate_tls directory f = do
  validate_path "tls.cert_dir" f.cert_dir
  validate_suffix "tls.cert_suffix" f.cert_suffix
  validate_suffix "tls.key_suffix" f.key_suffix
  refuse
      (f.cert_suffix == f.key_suffix
        || ends_with f.cert_suffix f.key_suffix
        || ends_with f.key_suffix f.cert_suffix)
      (invalid (message "tls.cert_suffix and tls.key_suffix must be distinct and non-overlapping"))
  elim f.default_certificate [
    | none ↦ ok tt
    | some id ↦ validate_certificate_id (field "tls.default_certificate") id
  ]
  ok (record {
    cert_dir = resolve_config_path directory f.cert_dir;
    cert_suffix = f.cert_suffix;
    key_suffix = f.key_suffix;
    default_certificate = f.default_certificate;
  })
