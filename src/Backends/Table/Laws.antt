-- ===== src/Backends/Table/Laws.antt =====
-- src/routes/table.rs: which entry of the configuration serves a WebSocket request.
use edge_gateway.Prelude.{◌≡◌, ◌↔◌, refl, List, ok, Result-cases, inl, inr, Any, All, arith}
use edge_gateway.Prelude.Text.{Text}
use edge_gateway.Http.{UriLib, HeaderLib}
use edge_gateway.Routing.{normalize_dns_host}
use edge_gateway.Routing.HostPaths.Build.{add_all, Placed, Serves, add_all_iff, all_yield}
use edge_gateway.Backends.{
  RouteNamespace, validate_public_path, BackendEndpoint, parse_backend, some,
}
use edge_gateway.Backends.Table.{
  RouteSpec, Route, RouteTable, Building, route_for, add_route, no_entries, build, resolve,
}

module _ (uris : UriLib) (http : HeaderLib) where
  -- What an entry that is accepted for this host yields: the namespace and the backend are those that
  -- the checks give.
  pub record Yields (spec : RouteSpec) (host : Text) (r : Route uris http) : Type 0 where
    pub host_is : normalize_dns_host spec.host ≡ ok host
    pub namespace : RouteNamespace
    pub well_formed : validate_public_path spec.path ≡ ok namespace
    pub endpoint : BackendEndpoint uris http
    pub endpoint_is : parse_backend uris http spec.backend ≡ ok endpoint
    pub route_is : r ≡ route_for uris http spec host namespace endpoint

  Yields-unique :
      (spec : RouteSpec) (h h' : Text) (r r' : Route uris http)
      → Yields spec h r
      → Yields spec h' r'
      → (h ≡ h') × (r ≡ r')
  Yields-unique spec h h' r r' y z = ground (
    arith, y.host_is, z.host_is, y.well_formed, z.well_formed, y.endpoint_is, z.endpoint_is,
    y.route_is, z.route_is,
  )

  -- The entries that serve a host and path with a route.
  abbrev pub IsServed : Text → Text → Route uris http → RouteSpec → Type 0
  IsServed =
      Serves (add_route uris http) (λ b. b.paths) (λ b. b.by_host) (λ s. s.enabled) (λ s. s.path)
        Yields

  add_route-Placed :
      (b b' : Building uris http) (spec : RouteSpec)
      → add_route uris http b spec ≡ ok b'
      → Placed
          (add_route uris http)
          (λ b. b.paths)
          (λ b. b.by_host)
          (λ s. s.enabled)
          (λ s. s.path)
          Yields
          b
          b'
          spec
  unfolding add_route
  add_route-Placed b b' spec h = elim (Result-cases (normalize_dns_host spec.host)) [
    | inr (e, bad) ↦ absurd (ground arith)
    | inl (host, named) ↦ elim (Result-cases (validate_public_path spec.path)) [
      | inr (e, bad) ↦ absurd (ground arith)
      | inl (namespace, formed) ↦ elim (Result-cases (parse_backend uris http spec.backend)) [
        | inr (e, bad) ↦ absurd (ground arith)
        | inl (endpoint, parsed) ↦ record {
          host = host;
          route = route_for uris http spec host namespace endpoint;
          yields = record {
            host_is = named;
            namespace = namespace;
            well_formed = formed;
            endpoint = endpoint;
            endpoint_is = parsed;
            route_is = refl;
          };
          fresh = ground arith;
          paths_is = ground arith;
          by_host_is = ground arith;
        }
      ]
    ]
  ]

  -- When build accepts the entries, the table resolves a host and a path to a route exactly when an
  -- entry is enabled, is for them, and yields the route.
  pub resolve_table_iff :
      (specs : List RouteSpec) (t : RouteTable uris http) (host path : Text) (r : Route uris http)
      → build uris http specs ≡ ok t
      → (resolve uris http t host path ≡ some r) ↔ Any (IsServed host path r) specs
  unfolding build resolve
  resolve_table_iff specs t host path r h =
      elim (Result-cases (add_all (add_route uris http) (no_entries uris http) specs)) [
        | inr (x, bad) ↦ absurd (ground arith)
        | inl (b, added) ↦
            let same : b.by_host ≡ t.enabled_by_host = ground arith in
            rw same at (
              add_all_iff _ _ _ _ _ Yields add_route-Placed Yields-unique specs
                (no_entries uris http) b host path r refl added)
      ]

  -- Every entry of an accepted list yields a route.
  pub built_yield :
      (specs : List RouteSpec) (t : RouteTable uris http)
      → build uris http specs ≡ ok t
      → All (λ spec. (host : Text) × (r : Route uris http) × Yields spec host r) specs
  unfolding build
  built_yield specs t h =
      elim (Result-cases (add_all (add_route uris http) (no_entries uris http) specs)) [
        | inr (x, bad) ↦ absurd (ground arith)
        | inl (b, added) ↦
            all_yield _ _ _ _ _ Yields add_route-Placed Yields-unique specs (no_entries uris http) b
              added
      ]
