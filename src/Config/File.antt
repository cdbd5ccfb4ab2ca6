-- ===== src/Config/File.antt =====
-- src/config/mod.rs: `FileConfig::validate`, the whole file after its deserialization.
pub mod Names
pub mod Hosts
pub mod Disjoint
use edge_gateway.Prelude.{
  ℕ, ◌+◌, String, Bool, ◌&&◌, ◌||◌, Option, none, some, List, [], ◌∷◌, ◌++◌, map, Result, ok, err,
  ◌>>=◌, ◌>>◌, refuse, map_err, if◌then◌else◌, unwrap_or, any, length, contains, ◌==◌, nat_eq,
  list_eq, pair_eq, false,
}
use edge_gateway.Prelude.Text.{Text, text}
use edge_gateway.Prelude.Maps.{Map}
use edge_gateway.Http.{UriLib, HeaderLib}
use edge_gateway.Routing.{normalize_dns_host}
use edge_gateway.Routing.Policy
use edge_gateway.Routing.Policy.{RoutingPolicy}
use edge_gateway.Proxy.Path.{validate_http_path}
use edge_gateway.Proxy.Routes.{RouteSecurity, FileHttpRouteConfig, HttpRouteTable, HostRoutes}
use edge_gateway.Proxy.Routes.Build
use edge_gateway.Grpc
use edge_gateway.Grpc.{GrpcRouteSpec, GrpcRouteTable}
use edge_gateway.Backends.Table
use edge_gateway.Backends.Table.{RouteSpec, RouteTable, WebSocketHandshakeConfig}
use edge_gateway.Security.Network.{IpNetwork}
use edge_gateway.Security.Client.{ClientAddressPolicy}
use edge_gateway.Security.Blocking.{Runtime}
use edge_gateway.Security.Settings.{IpBlockingConfig}
use edge_gateway.Config.{
  ConfigError, invalid, route, grpc_route, message, rejected, path_conflict, http_table, policy,
}
use edge_gateway.Config.Server.{ServerConfig, FileServerConfig, validate_limits}
use edge_gateway.Config.Tls.{TlsConfig, FileTlsConfig, validate_tls}
use edge_gateway.Config.Acme.{AcmeConfig, FileAcmeConfig, validate_acme, disabled}
use edge_gateway.Config.Observability.{
  ObservabilityConfig, FileObservabilityConfig, validate_observability, switched_off,
}
use edge_gateway.Config.Fallback.{FallbackConfig, FileFallbackConfig, validate_fallback}
use edge_gateway.Config.Security.{FileSecurityConfig, validate_security}

pub record FileRouteConfig : Type 0 where
  pub security : RouteSecurity
  pub handshake : WebSocketHandshakeConfig
  pub id : Text
  pub host : Text
  pub path : Text
  pub backend : Text
  pub enabled : Bool

abbrev pub spec_of : FileRouteConfig → RouteSpec
spec_of r = record {
  id = r.id;
  host = r.host;
  path = r.path;
  backend = r.backend;
  enabled = r.enabled;
  security = r.security;
  handshake = r.handshake;
}

pub record FileGrpcRouteConfig : Type 0 where
  pub security : RouteSecurity
  pub id : Text
  pub host : Text
  pub path : Text
  pub backend : Text
  pub enabled : Bool

abbrev pub grpc_spec_of : FileGrpcRouteConfig → GrpcRouteSpec
grpc_spec_of r = record {
  id = r.id;
  host = r.host;
  path = r.path;
  backend = r.backend;
  enabled = r.enabled;
  security = r.security;
}

pub record FileSniBinding : Type 0 where
  pub sni : Text
  pub hosts : List Text

pub record FileRoutingConfig : Type 0 where
  pub require_sni : Bool
  pub sni_bindings : List FileSniBinding

-- `max_upstream` is the one field of the section `http_proxy`.
pub record FileConfig : Type 0 where
  pub security : FileSecurityConfig
  pub max_upstream : ℕ
  pub routing : FileRoutingConfig
  pub server : FileServerConfig
  pub tls : FileTlsConfig
  pub acme : Option FileAcmeConfig
  pub observability : Option FileObservabilityConfig
  pub fallback : Option FileFallbackConfig
  pub routes : List FileRouteConfig
  pub grpc_routes : List FileGrpcRouteConfig
  pub http_routes : List FileHttpRouteConfig

-- The sets that the loops fill: the hosts of enabled routes, and every taken host and path.
abbrev pub Taken : Type 0
Taken = List Text × List (Text × Text)

abbrev pub take_path : Taken → Text → Text → Bool → Taken
take_path taken host path enabled =
    (if enabled then host ∷ taken.0 else taken.0, (host, path) ∷ taken.1)

-- The loop over the WebSocket routes.
unfoldable pub check_routes : Taken → List RouteSpec → Result ConfigError Taken
check_routes taken [] = ok taken
check_routes taken (r ∷ rs) = do
  refuse (r.path == text "/health/live" || r.path == text "/health/ready")
      (invalid (message "WebSocket routes must not use reserved health paths"))
  map_err (λ reason. invalid (rejected "routes.path" reason)) (validate_http_path r.path)
  host ← map_err (λ reason. invalid (rejected "routes.host" reason)) (normalize_dns_host r.host)
  check_routes (take_path taken host r.path r.enabled) rs

-- The loop over the gRPC routes.
unfoldable pub check_grpc_routes : Taken → List GrpcRouteSpec → Result ConfigError Taken
check_grpc_routes taken [] = ok taken
check_grpc_routes taken (r ∷ rs) = do
  host ←
      map_err (λ reason. invalid (rejected "grpc_routes.host" reason)) (normalize_dns_host r.host)
  refuse (contains (host, r.path) taken.1) (invalid (path_conflict host r.path))
  check_grpc_routes (take_path taken host r.path r.enabled) rs

-- `HttpRouteTable::hosts`
unfoldable pub hosts_of : Map Text HostRoutes → List Text
hosts_of [] = []
hosts_of ((host, routes) ∷ m) = host ∷ hosts_of m

unfoldable pub needs_cloudflare : FileConfig → Bool
needs_cloudflare f =
    any (λ r. r.enabled && r.security.cloudflare_only) f.routes
    || any (λ r. r.enabled && r.security.cloudflare_only) f.grpc_routes
    || any (λ r. r.enabled && r.security.cloudflare_only) f.http_routes
    || elim f.fallback [ none ↦ false | some r ↦ r.enabled && r.security.cloudflare_only ]

-- `section.map(validate).transpose()?.unwrap_or(default)`
unfoldable pub or_default :
    {F C : Type 0} → Option F → (F → Result ConfigError C) → C → Result ConfigError C
or_default none check d = ok d
or_default (some f) check d = check f

module _ (uris : UriLib) (http : HeaderLib) where
  pub record Config : Type 0 where
    pub server : ServerConfig
    pub routing : RoutingPolicy
    pub client_address : ClientAddressPolicy
    pub ip_blocking : Runtime
    pub tls : TlsConfig
    pub acme : AcmeConfig
    pub observability : ObservabilityConfig
    pub fallback : Option FallbackConfig
    pub routes : RouteTable uris http
    pub grpc_routes : GrpcRouteTable uris http
    pub http_routes : HttpRouteTable
    pub max_http_upstream_connections : ℕ

  -- The part that builds the tables and the policy.
  pub record Tables : Type 0 where
    pub routes : RouteTable uris http
    pub grpc_routes : GrpcRouteTable uris http
    pub http_routes : HttpRouteTable
    pub routing : RoutingPolicy

  unfoldable pub build_tables :
      Text → Option FallbackConfig → FileConfig → Result ConfigError Tables
  build_tables directory fallback f = do
    let specs = map spec_of f.routes
    checked ← check_routes ([], []) specs
    routes ← map_err route (Table.build uris http specs)
    let grpc_specs = map grpc_spec_of f.grpc_routes
    taken ← check_grpc_routes checked grpc_specs
    grpc_routes ← map_err grpc_route (Grpc.build uris http grpc_specs)
    http_routes ←
        map_err (λ e. invalid (http_table e)) (Build.build uris directory taken.1 f.http_routes)
    let hosts =
        elim fallback [ none ↦ [] | some c ↦ c.hosts ] ++ (hosts_of http_routes.by_host ++ taken.0)
    routing ←
        map_err (λ e. invalid (policy e))
          (Policy.build hosts f.routing.require_sni
            (map (λ b. (b.sni, b.hosts)) f.routing.sni_bindings))
    ok (record {
      routes = routes;
      grpc_routes = grpc_routes;
      http_routes = http_routes;
      routing = routing;
    })

  module _ (file_name : Text → Option Text) (load_blocking : IpBlockingConfig → Result Text Runtime)
      (load_networks : Option Text → Result Text (List IpNetwork)) where
    unfoldable pub validate_file : Text → FileConfig → Result ConfigError Config
    validate_file directory f = do
      limits ←
          validate_limits (length f.routes + length f.grpc_routes + length f.http_routes)
            f.max_upstream f.server
      tls ← validate_tls directory f.tls
      acme ← or_default f.acme (validate_acme directory) (disabled directory)
      observability ← or_default f.observability (validate_observability directory) switched_off
      fallback ← or_default f.fallback (validate_fallback uris directory) none
      tables ← build_tables directory fallback f
      security ←
          validate_security file_name load_blocking load_networks directory (needs_cloudflare f)
            f.security
      ok (record {
        server = limits.0;
        routing = tables.routing;
        client_address = security.0;
        ip_blocking = security.1;
        tls = tls;
        acme = acme;
        observability = observability;
        fallback = fallback;
        routes = tables.routes;
        grpc_routes = tables.grpc_routes;
        http_routes = tables.http_routes;
        max_http_upstream_connections = limits.1;
      })
