-- ===== src/Tls.antt =====
-- src/tls: the certificates below a directory, and the choice of one for a connection.
-- The parsers of PEM and X.509 and the file system are outside: `CertificateLib` is what the code
-- asks of them.
pub mod Store
pub mod Index
pub mod Choice
pub mod Discovery
mod Tests
use edge_gateway.Prelude.{Option, List, Result}
use edge_gateway.Prelude.Text.{Text}

pub record CertificateLib : Type 1 where
  pub Der : Type 0
  pub PrivateKey : Type 0
  pub CertifiedKey : Type 0
  pub Timestamp : Type 0
  -- `fs::read`
  pub read : Text → Result Text Text
  -- `rustls_pemfile::certs`, collected
  pub certs : Text → Result Text (List Der)
  -- `rustls_pemfile::private_key`
  pub private_key : Text → Result Text (Option PrivateKey)
  -- `CertifiedKey::from_der`
  pub from_der : List Der → PrivateKey → Result Text CertifiedKey
  -- The DNS names of a certificate's SubjectAlternativeName extensions, in order, and its end.
  pub dns_names : Der → Result Text (List Text)
  pub not_after : Der → Timestamp
