-- ===== src/Grpc.antt =====
-- src/grpc/routes.rs: the gRPC route table.
pub mod Laws
mod Tests
use edge_gateway.Prelude.{
  ℕ, ◌+◌, String, Bool, true, false, not, ◌&&◌, ◌||◌, Option, none, some, List, [], ◌∷◌, ◌++◌,
  Result, ok, err, ◌>>=◌, ◌>>◌, refuse, guard, ok_or, map_err, ltb, if◌then◌else◌, is_empty, any,
  all, length, contains, ◌==◌, nat_eq, list_eq, pair_eq, option_eq, unwrap_or,
}
use edge_gateway.Prelude.Text.{
  Text, text, chars, is_whitespace, is_control, is_alphabetic, is_alphanumeric, strip_prefix, split,
}
use edge_gateway.Net.{is_loopback}
use edge_gateway.Net.Endpoint.{SocketAddr, parse_host_ip}
use edge_gateway.Http.{UriLib, HeaderLib}
use edge_gateway.Routing.{normalize_dns_host}
use edge_gateway.Routing.HostPaths.{HostPaths, lookup, put}
use edge_gateway.Routing.HostPaths.Build.{add_all}
use edge_gateway.Proxy.Config.{nonzero}
use edge_gateway.Proxy.Routes.{RouteSecurity}

-- The reason of `InvalidBackend`: a fixed text, or one with a parser's message.
pub data BackendReason : Type 0 where
  because : String → BackendReason
  not_a_uri no_upstream_uri : Text → BackendReason

pub data GrpcRouteError : Type 0 where
  empty_id : GrpcRouteError
  id_too_long invalid_id invalid_path path_too_long duplicate_id : Text → GrpcRouteError
  duplicate_host_path : Text → Text → GrpcRouteError
  invalid_host : Text → String → GrpcRouteError
  invalid_backend : Text → BackendReason → GrpcRouteError

pub record GrpcRouteSpec : Type 0 where
  pub id : Text
  pub host : Text
  pub path : Text
  pub backend : Text
  pub enabled : Bool
  pub security : RouteSecurity

validate_id : Text → Result GrpcRouteError (Unit {0})
validate_id id = do
  refuse (is_empty id) empty_id
  refuse (ltb 128 (length id)) (id_too_long id)
  refuse (any is_whitespace (chars id) || any is_control (chars id)) (invalid_id id)

unfoldable pub is_proto_identifier : Text → Bool
is_proto_identifier [] = false
is_proto_identifier (first ∷ rest) =
    (first == b'_' || is_alphabetic first) && all (λ c. c == b'_' || is_alphanumeric c) rest

-- The segments behind the first slash: exactly a service and a method.
unfoldable pub is_method_path : List Text → Bool
unfolding is_proto_identifier
is_method_path (service ∷ method ∷ []) =
    not (is_empty service)
    && not (is_empty method)
    && all is_proto_identifier (split b'.' service)
    && is_proto_identifier method
is_method_path segments = false

unfoldable pub validate_grpc_path : Text → Result GrpcRouteError (Unit {0})
validate_grpc_path path = do
  refuse (ltb 2048 (length path)) (path_too_long path)
  refuse
      (any (λ b. b == b'?' || b == b'#' || b == b'\\') path
        || any is_whitespace (chars path)
        || any is_control (chars path))
      (invalid_path path)
  remainder ← ok_or (strip_prefix path (b'/' ∷ [])) (invalid_path path)
  guard (is_method_path (split b'/' remainder)) (invalid_path path)

module _ (http : HeaderLib) where
  pub record GrpcBackendEndpoint : Type 0 where
    pub display : Text
    pub address : SocketAddr
    pub authority : Text
    pub host_header : http.Value

module _ (uris : UriLib) (http : HeaderLib) where
  unfoldable pub parse_endpoint : Text → Result GrpcRouteError (GrpcBackendEndpoint http)
  unfolding nonzero
  parse_endpoint value = do
    let bad = invalid_backend value
    uri ← map_err (λ m. bad (not_a_uri m)) (uris.parse value)
    guard (uris.scheme_str uri == some (text "h2c")) (bad (because "scheme must be h2c"))
    authority ← ok_or (uris.authority uri) (bad (because "authority is required"))
    refuse (any (λ b. b == b'@') authority) (bad (because "userinfo is not allowed"))
    host ← ok_or (uris.host uri) (bad (because "host is required"))
    ip ← ok_or (parse_host_ip host) (bad (because "host must be an IPv4 or IPv6 loopback address"))
    guard (is_loopback ip) (bad (because "host must be a loopback address"))
    port ←
        ok_or (nonzero (uris.port_u16 uri)) (bad (because "an explicit nonzero port is required"))
    refuse (not (unwrap_or (text "/") (uris.path_and_query uri) == text "/"))
        (bad (because "backend URL must not contain a path or query"))
    host_header ← ok_or (http.from_str authority) (bad (because "invalid authority"))
    ok (record {
      display = value;
      address = record { ip = ip; port = port };
      authority = authority;
      host_header = host_header;
    })

  pub record GrpcRoute : Type 0 where
    pub id : Text
    pub host : Text
    pub path : Text
    pub backend : GrpcBackendEndpoint http
    pub upstream_uri : uris.Uri
    pub security : RouteSecurity

  pub record GrpcRouteTable : Type 0 where
    pub enabled_by_host : HostPaths GrpcRoute
    pub enabled_count : ℕ
    pub configured_count : ℕ

  -- The local variables of the loop of `build`.
  pub record Building : Type 0 where
    pub ids : List Text
    pub paths : List (Text × Text)
    pub by_host : HostPaths GrpcRoute
    pub enabled_count : ℕ

  abbrev pub route_for : GrpcRouteSpec → Text → GrpcBackendEndpoint http → uris.Uri → GrpcRoute
  route_for spec host backend uri = record {
    id = spec.id;
    host = host;
    path = spec.path;
    backend = backend;
    upstream_uri = uri;
    security = spec.security;
  }

  -- One round of the loop.
  unfoldable pub add_route : Building → GrpcRouteSpec → Result GrpcRouteError Building
  unfolding validate_id
  add_route b spec = do
    validate_id spec.id
    host ← map_err (invalid_host spec.host) (normalize_dns_host spec.host)
    validate_grpc_path spec.path
    refuse (contains spec.id b.ids) (duplicate_id spec.id)
    refuse (contains (host, spec.path) b.paths) (duplicate_host_path host spec.path)
    backend ← parse_endpoint spec.backend
    uri ←
        map_err (λ m. invalid_backend spec.backend (no_upstream_uri m))
          (uris.parse (text "http://" ++ backend.authority ++ spec.path))
    ok (record {
      ids = spec.id ∷ b.ids;
      paths = (host, spec.path) ∷ b.paths;
      by_host =
          if spec.enabled
          then put host spec.path (route_for spec host backend uri) b.by_host
          else b.by_host;
      enabled_count = if spec.enabled then b.enabled_count + 1 else b.enabled_count;
    })

  abbrev pub no_entries : Building
  no_entries = record { ids = []; paths = []; by_host = []; enabled_count = 0 }

  unfoldable pub build : List GrpcRouteSpec → Result GrpcRouteError GrpcRouteTable
  build specs = do
    b ← add_all add_route no_entries specs
    ok (record {
      enabled_by_host = b.by_host;
      enabled_count = b.enabled_count;
      configured_count = length specs;
    })

  unfoldable pub resolve : GrpcRouteTable → Text → Text → Option GrpcRoute
  resolve table host path = lookup host path table.enabled_by_host
