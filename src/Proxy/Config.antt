-- ===== src/Proxy/Config.antt =====
-- src/http_proxy/config.rs: the upstream of a route as the file gives it, and its validation.
pub mod Laws
use edge_gateway.Prelude.{
  is_some, unwrap_or, ℕ, String, Bool, true, false, not, ◌&&◌, ◌||◌, Option, none, some, List, [],
  ◌∷◌, ◌++◌, Result, ok, err, ◌>>=◌, ◌>>◌, refuse, guard, ok_or, map_err, ltb, if◌then◌else◌,
  is_empty, any, ◌==◌, nat_eq, list_eq,
}
use edge_gateway.Prelude.Text.{Text, text, starts_with, ends_with_byte}
use edge_gateway.Net.{is_loopback}
use edge_gateway.Net.Endpoint.{SocketAddr, parse_host_ip}
use edge_gateway.Http.{UriLib}
use edge_gateway.Routing.{normalize_dns_host}

pub data UpstreamProtocol : Type 0 where
  http1 http2 : UpstreamProtocol

pub data HostHeaderPolicy : Type 0 where
  preserve backend : HostHeaderPolicy

pub data TlsServerName : Type 0 where
  request_host : TlsServerName
  literal : Text → TlsServerName

-- Durations are in seconds.
pub record PoolConfig : Type 0 where
  pub max_connections : ℕ
  pub max_idle_connections : ℕ
  pub max_active_requests : ℕ
  pub max_pending_requests : ℕ
  pub idle_timeout : ℕ
  pub pending_timeout : ℕ
  pub response_header_timeout : ℕ
  pub body_idle_timeout : ℕ

pub record UpstreamConfig : Type 0 where
  pub endpoint : Text
  pub address : SocketAddr
  pub authority : Text
  pub tls : Bool
  pub protocol : UpstreamProtocol
  pub host_header : HostHeaderPolicy
  pub tls_server_name : TlsServerName
  pub ca_file : Option Text
  pub pool : PoolConfig

pub record FilePoolConfig : Type 0 where
  pub max_connections : ℕ
  pub max_idle_connections : ℕ
  pub max_active_requests : ℕ
  pub max_pending_requests : ℕ
  pub idle_timeout_seconds : ℕ
  pub pending_timeout_seconds : ℕ
  pub response_header_timeout_seconds : ℕ
  pub body_idle_timeout_seconds : ℕ

-- `FilePoolConfig::default`
abbrev pub default_pool : FilePoolConfig
default_pool = record {
  max_connections = 128;
  max_idle_connections = 16;
  max_active_requests = 256;
  max_pending_requests = 64;
  idle_timeout_seconds = 60;
  pending_timeout_seconds = 5;
  response_header_timeout_seconds = 60;
  body_idle_timeout_seconds = 60;
}

pub record FileUpstreamConfig : Type 0 where
  pub endpoint : Text
  pub protocol : UpstreamProtocol
  pub host_header : HostHeaderPolicy
  pub tls_server_name : Text
  pub ca_file : Option Text
  pub pool : FilePoolConfig

-- A message, one with the message of the URI parser, and the bound that a field of the pool broke.
pub data ConfigError : Type 0 where
  message : String → ConfigError
  invalid_endpoint : Text → ConfigError
  out_of_range : String → ℕ → ConfigError

-- The rounds of the two loops over named values.
abbrev pub check_range : List (String × ℕ × ℕ) → Result ConfigError (Unit {0})
check_range [] = ok tt
check_range ((name, value, max) ∷ rest) = do
  refuse (value == 0 || ltb max value) (out_of_range name max)
  check_range rest

unfoldable pub validate_pool : FilePoolConfig → Result ConfigError PoolConfig
validate_pool f = do
  check_range (
      ("max_connections", f.max_connections, 65536)
      ∷ ("max_active_requests", f.max_active_requests, 65536)
      ∷ [])
  refuse
      (ltb f.max_connections f.max_idle_connections
        || ltb f.max_active_requests f.max_pending_requests)
      (message
        "pool idle capacity must not exceed connections; pending capacity must not exceed active requests")
  check_range (
      ("idle_timeout_seconds", f.idle_timeout_seconds, 3600)
      ∷ ("pending_timeout_seconds", f.pending_timeout_seconds, 3600)
      ∷ ("response_header_timeout_seconds", f.response_header_timeout_seconds, 3600)
      ∷ ("body_idle_timeout_seconds", f.body_idle_timeout_seconds, 3600)
      ∷ [])
  ok (record {
    max_connections = f.max_connections;
    max_idle_connections = f.max_idle_connections;
    max_active_requests = f.max_active_requests;
    max_pending_requests = f.max_pending_requests;
    idle_timeout = f.idle_timeout_seconds;
    pending_timeout = f.pending_timeout_seconds;
    response_header_timeout = f.response_header_timeout_seconds;
    body_idle_timeout = f.body_idle_timeout_seconds;
  })

-- `Path::is_absolute` and `Path::join` on Unix.
abbrev pub is_absolute : Text → Bool
is_absolute path = starts_with path (text "/")

unfoldable pub join : Text → Text → Text
join directory path =
    if is_absolute path
    then path
    else if is_empty directory || ends_with_byte directory b'/'
    then directory ++ path
    else directory ++ (b'/' ∷ path)

parse_scheme : Option Text → Result ConfigError Bool
parse_scheme scheme =
    let unknown = message "upstream.endpoint scheme must be http or https" in
    elim scheme [
      | none ↦ err unknown
      | some s ↦
          if s == text "http" then ok false else if s == text "https" then ok true else err unknown
    ]

parse_server_name : Text → Result ConfigError TlsServerName
parse_server_name name =
    if name == text "request_host"
    then ok request_host
    else (map_err message (normalize_dns_host name) >>= λ host. ok (literal host))

unfoldable pub nonzero : Option ℕ → Option ℕ
nonzero none = none
nonzero (some p) = if p == 0 then none else some p

resolve_ca : Text → Option Text → Option Text
resolve_ca directory none = none
resolve_ca directory (some path) = some (if is_absolute path then path else join directory path)

module _ (uris : UriLib) where
  unfoldable pub validate : Text → FileUpstreamConfig → Result ConfigError UpstreamConfig
  unfolding parse_scheme parse_server_name nonzero resolve_ca
  validate directory f = do
    refuse (any (λ b. b == b'#') f.endpoint)
        (message "upstream.endpoint must not contain a fragment")
    uri ← map_err invalid_endpoint (uris.parse f.endpoint)
    tls ← parse_scheme (uris.scheme_str uri)
    authority ← ok_or (uris.authority uri) (message "upstream.endpoint requires an authority")
    refuse (any (λ b. b == b'@') authority) (message "upstream.endpoint must not contain userinfo")
    host ← ok_or (uris.host uri) (message "upstream.endpoint requires a host")
    ip ←
        ok_or (parse_host_ip host)
          (message "upstream.endpoint host must be a literal loopback address")
    guard (is_loopback ip)
        (message "upstream.endpoint host must be loopback; publish Docker ports locally")
    port ←
        ok_or (nonzero (uris.port_u16 uri))
          (message "upstream.endpoint requires an explicit nonzero port")
    refuse (not (unwrap_or (text "/") (uris.path_and_query uri) == text "/"))
        (message "upstream.endpoint is an origin only; configure paths with route rewrite")
    tls_server_name ← parse_server_name f.tls_server_name
    refuse (not tls && is_some f.ca_file) (message "upstream.ca_file requires https")
    refuse (elim f.ca_file [ none ↦ false | some path ↦ is_empty path ])
        (message "upstream.ca_file must not be empty")
    pool ← validate_pool f.pool
    ok (record {
      endpoint = f.endpoint;
      address = record { ip = ip; port = port };
      authority = authority;
      tls = tls;
      protocol = f.protocol;
      host_header = f.host_header;
      tls_server_name = tls_server_name;
      ca_file = resolve_ca directory f.ca_file;
      pool = pool;
    })
