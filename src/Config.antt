-- ===== src/Config.antt =====
-- src/config/mod.rs: the checks of one value, which the sections of the configuration share.
-- A duration is a number of seconds, a path is its text.
pub mod Server
pub mod Tls
pub mod Acme
pub mod Observability
pub mod Fallback
pub mod Security
pub mod File
mod Sample
mod Tests
use edge_gateway.Prelude.{
  ℕ, String, Bool, not, ◌||◌, List, [], ◌∷◌, Result, ok, err, ◌>>=◌, ◌>>◌, refuse, guard, ltb, all,
  if◌then◌else◌, is_empty, contains, ◌==◌, nat_eq,
}
use edge_gateway.Prelude.Text.{Text, chars, is_alphanumeric}
use edge_gateway.Backends.{RouteError}
use edge_gateway.Grpc.{GrpcRouteError}
use edge_gateway.Routing.Policy.{PolicyError}
use edge_gateway.Proxy.Config
use edge_gateway.Proxy.Config.{is_absolute, join}
use edge_gateway.Proxy.Routes.Build.{RouteTableError}

-- The name of a value of the file: fixed, or with the place of an ACME certificate.
pub data Field : Type 0 where
  field : String → Field
  certificate_id : ℕ → Field

-- The texts of `ConfigError::Invalid`: fixed ones, and ones with values formatted in.
pub data Invalid : Type 0 where
  message : String → Invalid
  not_positive : String → Invalid
  exceeds : String → ℕ → Invalid
  empty bad_characters : Field → Invalid
  is_a_path : String → Invalid
  rejected : String → String → Invalid
  rejected_text : String → Text → Invalid
  bad_upstream : String → Config.ConfigError → Invalid
  duplicate_fallback_host : Text → Invalid
  duplicate_certificate : Text → Invalid
  no_domains : ℕ → Invalid
  bad_domain : ℕ → Text → String → Invalid
  duplicate_domain : Text → Text → Invalid
  domain_taken : Text → Invalid
  path_conflict : Text → Text → Invalid
  http_table : RouteTableError → Invalid
  policy : PolicyError → Invalid
  bad_cidr : Text → String → Invalid

-- The errors of a configuration that has been read and parsed.
pub data ConfigError : Type 0 where
  invalid : Invalid → ConfigError
  route : RouteError → ConfigError
  grpc_route : GrpcRouteError → ConfigError

unfoldable pub validate_seconds : String → ℕ → ℕ → Result ConfigError ℕ
validate_seconds name seconds maximum = do
  refuse (seconds == 0) (invalid (not_positive name))
  refuse (ltb maximum seconds) (invalid (exceeds name maximum))
  ok seconds

unfoldable pub validate_size : String → ℕ → ℕ → Result ConfigError ℕ
validate_size name value maximum = do
  refuse (value == 0) (invalid (not_positive name))
  refuse (ltb maximum value) (invalid (exceeds name maximum))
  ok value

unfoldable pub validate_count : String → ℕ → ℕ → Result ConfigError ℕ
validate_count name value maximum = do
  refuse (value == 0) (invalid (not_positive name))
  refuse (ltb maximum value) (invalid (exceeds name maximum))
  ok value

unfoldable pub validate_path : String → Text → Result ConfigError (Unit {0})
validate_path name path = refuse (is_empty path) (invalid (empty (field name)))

unfoldable pub validate_suffix : String → Text → Result ConfigError (Unit {0})
validate_suffix name suffix = do
  refuse (is_empty suffix) (invalid (empty (field name)))
  refuse (contains b'/' suffix || contains b'\\' suffix) (invalid (is_a_path name))

unfoldable pub validate_certificate_id : Field → Text → Result ConfigError (Unit {0})
validate_certificate_id name id = do
  refuse (is_empty id) (invalid (empty name))
  guard (all (λ c. is_alphanumeric c || c == b'-' || c == b'_' || c == b'.') (chars id))
      (invalid (bad_characters name))

unfoldable pub resolve_config_path : Text → Text → Text
resolve_config_path directory path = if is_absolute path then path else join directory path
