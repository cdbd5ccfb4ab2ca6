-- ===== src/Grpc/Laws.antt =====
-- src/grpc/routes.rs: which entry of the configuration serves a gRPC request, and where its backend is.
use edge_gateway.Prelude.{
  refl, ◌≡◌, ◌↔◌, some, List, ok, Result-cases, Option-cases, inl, inr, Any, All, arith, nat_eq,
  list_eq, pair_eq, ◌++◌,
}
use edge_gateway.Prelude.Text.{Text, text}
use edge_gateway.Net.Endpoint.{IsLocal}
use edge_gateway.Http.{UriLib, HeaderLib}
use edge_gateway.Routing.{normalize_dns_host}
use edge_gateway.Routing.HostPaths.Build.{add_all, Placed, Serves, add_all_iff, all_yield}
use edge_gateway.Proxy.Config.{nonzero}
use edge_gateway.Grpc.{
  GrpcRouteSpec, GrpcRoute, GrpcRouteTable, GrpcBackendEndpoint, Building, validate_grpc_path,
  parse_endpoint, route_for, add_route, no_entries, build, resolve,
}

module _ (uris : UriLib) (http : HeaderLib) where
  -- What an entry that is accepted for this host yields: its path has the form of a gRPC method, its
  -- backend and the upstream URI are those that the parsers give.
  pub record Yields (spec : GrpcRouteSpec) (host : Text) (r : GrpcRoute uris http) : Type 0 where
    pub host_is : normalize_dns_host spec.host ≡ ok host
    pub well_formed : validate_grpc_path spec.path ≡ ok tt
    pub backend : GrpcBackendEndpoint http
    pub backend_is : parse_endpoint uris http spec.backend ≡ ok backend
    pub uri : uris.Uri
    pub uri_is : uris.parse (text "http://" ++ backend.authority ++ spec.path) ≡ ok uri
    pub route_is : r ≡ route_for uris http spec host backend uri

  Yields-unique :
      (spec : GrpcRouteSpec) (h h' : Text) (r r' : GrpcRoute uris http)
      → Yields spec h r
      → Yields spec h' r'
      → (h ≡ h') × (r ≡ r')
  Yields-unique spec h h' r r' y z = ground (
    arith, y.host_is, z.host_is, y.backend_is, z.backend_is, y.uri_is, z.uri_is, y.route_is,
    z.route_is,
  )

  -- The entries that serve a host and path with a route.
  abbrev pub IsServed : Text → Text → GrpcRoute uris http → GrpcRouteSpec → Type 0
  IsServed =
      Serves (add_route uris http) (λ b. b.paths) (λ b. b.by_host) (λ s. s.enabled) (λ s. s.path)
        Yields

  add_route-Placed :
      (b b' : Building uris http) (spec : GrpcRouteSpec)
      → add_route uris http b spec ≡ ok b'
      → Placed
          (add_route uris http)
          (λ b. b.paths)
          (λ b. b.by_host)
          (λ s. s.enabled)
          (λ s. s.path)
          Yields
          b
          b'
          spec
  unfolding add_route
  add_route-Placed b b' spec h = elim (Result-cases (normalize_dns_host spec.host)) [
    | inr (e, bad) ↦ absurd (ground arith)
    | inl (host, named) ↦ elim (Result-cases (parse_endpoint uris http spec.backend)) [
      | inr (e, bad) ↦ absurd (ground arith)
      | inl (backend, parsed) ↦
          elim (Result-cases (uris.parse (text "http://" ++ backend.authority ++ spec.path))) [
            | inr (e, bad) ↦ absurd (ground arith)
            | inl (uri, built) ↦ record {
              host = host;
              route = route_for uris http spec host backend uri;
              yields = record {
                host_is = named;
                well_formed = ground arith;
                backend = backend;
                backend_is = parsed;
                uri = uri;
                uri_is = built;
                route_is = refl;
              };
              fresh = ground arith;
              paths_is = ground arith;
              by_host_is = ground arith;
            }
          ]
    ]
  ]

  -- A built table resolves a host and a path to a route exactly when an entry of the configuration
  -- is enabled, is for them, and yields the route.
  pub resolve_built_iff :
      (specs : List GrpcRouteSpec) (t : GrpcRouteTable uris http) (host path : Text)
      (r : GrpcRoute uris http)
      → build uris http specs ≡ ok t
      → (resolve uris http t host path ≡ some r) ↔ Any (IsServed host path r) specs
  unfolding build resolve
  resolve_built_iff specs t host path r h =
      elim (Result-cases (add_all (add_route uris http) (no_entries uris http) specs)) [
        | inr (x, bad) ↦ absurd (ground arith)
        | inl (b, added) ↦
            let same : b.by_host ≡ t.enabled_by_host = ground arith in
            rw same at (
              add_all_iff _ _ _ _ _ Yields add_route-Placed Yields-unique specs
                (no_entries uris http) b host path r refl added)
      ]

  -- Every entry of an accepted list yields a route.
  pub built_yield :
      (specs : List GrpcRouteSpec) (t : GrpcRouteTable uris http)
      → build uris http specs ≡ ok t
      → All (λ spec. (host : Text) × (r : GrpcRoute uris http) × Yields spec host r) specs
  unfolding build
  built_yield specs t h =
      elim (Result-cases (add_all (add_route uris http) (no_entries uris http) specs)) [
        | inr (x, bad) ↦ absurd (ground arith)
        | inl (b, added) ↦
            all_yield _ _ _ _ _ Yields add_route-Placed Yields-unique specs (no_entries uris http) b
              added
      ]

-- A backend that the parser accepts is a nonzero port of a loopback address, and keeps its text.
pub parse_endpoint-IsLocal :
    (uris : UriLib) (http : HeaderLib) (value : Text) (backend : GrpcBackendEndpoint http)
    → parse_endpoint uris http value ≡ ok backend
    → IsLocal backend.address × (backend.display ≡ value)
unfolding parse_endpoint nonzero
parse_endpoint-IsLocal uris http value backend h = elim (Result-cases (uris.parse value)) [
  | inr (e, bad) ↦ absurd (ground arith)
  | inl (uri, parsed) ↦ elim (Option-cases (uris.port_u16 uri)) [
    | inl missing ↦ absurd (ground arith)
    | inr (port, given) ↦ (
      record {
        loopback = ground arith;
        port_pos = ground arith;
        port_bounded = ground (arith, uris.port_u16-lt uri port given);
      },
      ground arith,
    )
  ]
]
