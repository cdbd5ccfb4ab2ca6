-- ===== src/Backends/Table.antt =====
-- src/routes/table.rs: the table of the WebSocket routes.
pub mod Laws
use edge_gateway.Prelude.{
  ℕ, ◌+◌, Bool, true, false, ◌||◌, Option, List, [], ◌∷◌, Result, ok, ◌>>=◌, ◌>>◌, refuse, map_err,
  if◌then◌else◌, is_empty, any, length, ltb, contains, nat_eq, list_eq, pair_eq,
}
use edge_gateway.Prelude.Text.{Text, chars, is_whitespace, is_control}
use edge_gateway.Http.{UriLib, HeaderLib}
use edge_gateway.Routing.{normalize_dns_host}
use edge_gateway.Routing.HostPaths.{HostPaths, lookup, put}
use edge_gateway.Routing.HostPaths.Build.{add_all}
use edge_gateway.Proxy.Routes.{RouteSecurity}
use edge_gateway.Backends.{
  RouteError, empty_id, id_too_long, invalid_id, duplicate_id, duplicate_host_path, invalid_host,
  RouteNamespace, validate_public_path, BackendEndpoint, parse_backend,
}

pub data WebSocketQuery : Type 0 where
  backend preserve : WebSocketQuery

pub record WebSocketHandshakeConfig : Type 0 where
  pub forward_cookie : Bool
  pub forward_origin : Bool
  pub query : WebSocketQuery

-- `WebSocketHandshakeConfig::default`
abbrev pub default_handshake : WebSocketHandshakeConfig
default_handshake = record { forward_cookie = true; forward_origin = true; query = backend }

pub record RouteSpec : Type 0 where
  pub id : Text
  pub host : Text
  pub path : Text
  pub backend : Text
  pub enabled : Bool
  pub security : RouteSecurity
  pub handshake : WebSocketHandshakeConfig

validate_id : Text → Result RouteError (Unit {0})
validate_id id = do
  refuse (is_empty id) empty_id
  refuse (ltb 128 (length id)) (id_too_long id)
  refuse (any is_whitespace (chars id) || any is_control (chars id)) (invalid_id id)

module _ (uris : UriLib) (http : HeaderLib) where
  pub record Route : Type 0 where
    pub id : Text
    pub host : Text
    pub path : Text
    pub namespace : RouteNamespace
    pub backend : BackendEndpoint uris http
    pub security : RouteSecurity
    pub handshake : WebSocketHandshakeConfig

  pub record RouteTable : Type 0 where
    pub enabled_by_host : HostPaths Route
    pub enabled_count : ℕ
    pub configured_count : ℕ

  -- The local variables of the loop of `build`.
  pub record Building : Type 0 where
    pub ids : List Text
    pub paths : List (Text × Text)
    pub by_host : HostPaths Route
    pub enabled_count : ℕ

  abbrev pub route_for : RouteSpec → Text → RouteNamespace → BackendEndpoint uris http → Route
  route_for spec host namespace endpoint = record {
    id = spec.id;
    host = host;
    path = spec.path;
    namespace = namespace;
    backend = endpoint;
    security = spec.security;
    handshake = spec.handshake;
  }

  -- One round of the loop; the warning about a custom path is left out.
  unfoldable pub add_route : Building → RouteSpec → Result RouteError Building
  unfolding validate_id
  add_route b spec = do
    validate_id spec.id
    host ← map_err (invalid_host spec.host) (normalize_dns_host spec.host)
    namespace ← validate_public_path spec.path
    refuse (contains spec.id b.ids) (duplicate_id spec.id)
    refuse (contains (host, spec.path) b.paths) (duplicate_host_path host spec.path)
    endpoint ← parse_backend uris http spec.backend
    ok (record {
      ids = spec.id ∷ b.ids;
      paths = (host, spec.path) ∷ b.paths;
      by_host =
          if spec.enabled
          then put host spec.path (route_for spec host namespace endpoint) b.by_host
          else b.by_host;
      enabled_count = if spec.enabled then b.enabled_count + 1 else b.enabled_count;
    })

  abbrev pub no_entries : Building
  no_entries = record { ids = []; paths = []; by_host = []; enabled_count = 0 }

  unfoldable pub build : List RouteSpec → Result RouteError RouteTable
  build specs = do
    b ← add_all add_route no_entries specs
    ok (record {
      enabled_by_host = b.by_host;
      enabled_count = b.enabled_count;
      configured_count = length specs;
    })

  unfoldable pub resolve : RouteTable → Text → Text → Option Route
  resolve table host path = lookup host path table.enabled_by_host
