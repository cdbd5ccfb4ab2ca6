-- ===== src/Config/File/Hosts.antt =====
-- src/config/mod.rs: which hosts the routing policy of a validated file takes requests for.
use edge_gateway.Prelude.{
  ◌≡◌, ◌↔◌, ◌⊎◌, inl, inr, refl, Bool, true, false, ◌||◌, Option, none, some, List, [], ◌++◌, map,
  Result, ok, Result-cases, arith, contains, is_some, nat_eq, list_eq, pair_eq,
}
use edge_gateway.Prelude.Text.{Text}
use edge_gateway.Prelude.Text.Order.{contains-append}
use edge_gateway.Prelude.Maps.{get}
use edge_gateway.Http.{UriLib, HeaderLib}
use edge_gateway.Routing.Policy
use edge_gateway.Grpc
use edge_gateway.Grpc.{GrpcRouteSpec, GrpcRoute}
use edge_gateway.Grpc.Laws as GrpcLaws
use edge_gateway.Backends.Table
use edge_gateway.Backends.Table.{RouteSpec, RouteTable, Route}
use edge_gateway.Backends.Table.Laws as TableLaws
use edge_gateway.Proxy.Routes.Build
use edge_gateway.Proxy.Routes.Build.Hosts.{HasHttp, build-HasHttp}
use edge_gateway.Config.Fallback.{FallbackConfig, permits_host, validate_fallback}
use edge_gateway.Config.File.{
  check_routes, check_grpc_routes, hosts_of, GrpcRouteTable, Tables, build_tables, FileConfig,
  spec_of, grpc_spec_of, IpBlockingConfig, Runtime, IpNetwork, validate_file, Config, or_default,
}
use edge_gateway.Config.File.Names.{
  names, check_routes-names, check_grpc_routes-names, names_iff, contains-hosts_of,
}

or_iff : {A B : Type 0} (a b : Bool) → (a ≡ true) ↔ A → (b ≡ true) ↔ B → ((a || b) ≡ true) ↔ (A ⊎ B)
or_iff true b f g = (λ h. inl (f.0 h), λ h. refl)
or_iff false b f g = (λ h. inr (g.0 h), λ h. elim h [ inl x ↦ absurd (cc (f.1 x)) | inr y ↦ g.1 y ])

module _ (uris : UriLib) (http : HeaderLib) where
  -- Some path of the host is a WebSocket route.
  abbrev pub HasSocket : RouteTable uris http → Text → Type 0
  HasSocket t host =
      (path : Text) × (r : Route uris http) × (Table.resolve uris http t host path ≡ some r)

  abbrev pub HasGrpc : GrpcRouteTable uris http → Text → Type 0
  HasGrpc t host =
      (path : Text) × (r : GrpcRoute uris http) × (Grpc.resolve uris http t host path ≡ some r)

  names-HasSocket :
      (k : Text) (specs : List RouteSpec) (t : RouteTable uris http)
      → Table.build uris http specs ≡ ok t
      → (names (λ s. s.enabled) (λ s. s.host) k specs ≡ true) ↔ HasSocket t k
  names-HasSocket k specs t built =
      let served =
        names_iff (Table.add_route uris http) (λ b. b.paths) (λ b. b.by_host) (λ s. s.enabled)
          (λ s. s.path) (λ s. s.host) (TableLaws.Yields uris http) (λ s h r y. y.host_is) k specs
          (TableLaws.built_yield uris http specs t built) in
      (
        λ e.
            let (path, r, s) = served.0 e in
            (path, r, (TableLaws.resolve_table_iff uris http specs t k path r built).1 s),
        λ (path, r, e).
            served.1 (path, r, (TableLaws.resolve_table_iff uris http specs t k path r built).0 e),
      )

  names-HasGrpc :
      (k : Text) (specs : List GrpcRouteSpec) (t : GrpcRouteTable uris http)
      → Grpc.build uris http specs ≡ ok t
      → (names (λ s. s.enabled) (λ s. s.host) k specs ≡ true) ↔ HasGrpc t k
  names-HasGrpc k specs t built =
      let served =
        names_iff (Grpc.add_route uris http) (λ b. b.paths) (λ b. b.by_host) (λ s. s.enabled)
          (λ s. s.path) (λ s. s.host) (GrpcLaws.Yields uris http) (λ s h r y. y.host_is) k specs
          (GrpcLaws.built_yield uris http specs t built) in
      (
        λ e.
            let (path, r, s) = served.0 e in
            (path, r, (GrpcLaws.resolve_built_iff uris http specs t k path r built).1 s),
        λ (path, r, e).
            served.1 (path, r, (GrpcLaws.resolve_built_iff uris http specs t k path r built).0 e),
      )

  -- The hosts of the policy: a table resolves some path for them, or the fallback is for them.
  abbrev pub IsKnown : Tables uris http → Option FallbackConfig → Text → Type 0
  IsKnown t fallback host =
      HasSocket t.routes host
      ⊎ HasGrpc t.grpc_routes host
      ⊎ HasHttp t.http_routes host
      ⊎ (elim fallback as (λ _. Bool) [ none ↦ false | some c ↦ permits_host c host ] ≡ true)

  contains-more :
      (fallback : Option FallbackConfig) (host : Text)
      → contains host (elim fallback as (λ _. List Text) [ none ↦ [] | some c ↦ c.hosts ])
        ≡ elim fallback as (λ _. Bool) [ none ↦ false | some c ↦ permits_host c host ]
  unfolding permits_host
  contains-more none host = refl
  contains-more (some c) host = refl

  build_tables_iff :
      (directory : Text) (fallback : Option FallbackConfig) (f : FileConfig) (t : Tables uris http)
      (host : Text)
      → build_tables uris http directory fallback f ≡ ok t
      → (contains host t.routing.hosts ≡ true) ↔ IsKnown t fallback host
  unfolding build_tables Policy.build
  build_tables_iff directory fallback f t host e =
      let specs = map spec_of f.routes in
      let grpc_specs = map grpc_spec_of f.grpc_routes in
      elim (Result-cases (check_routes ([], []) specs)) [
        | inr (x, bad) ↦ absurd (ground arith)
        | inl (checked, first) ↦ elim (Result-cases (check_grpc_routes checked grpc_specs)) [
          | inr (x, bad) ↦ absurd (ground arith)
          | inl (taken, second) ↦
              let sockets : Table.build uris http specs ≡ ok t.routes = ground arith in
              let grpcs : Grpc.build uris http grpc_specs ≡ ok t.grpc_routes = ground arith in
              let https : Build.build uris directory taken.1 f.http_routes ≡ ok t.http_routes =
                ground arith in
              let more = elim fallback as (λ _. List Text) [ none ↦ [] | some c ↦ c.hosts ] in
              let hosts_are : t.routing.hosts
                  ≡ more ++ (hosts_of t.http_routes.by_host ++ taken.0) =
                ground arith in
              let is_fallback = elim fallback as (λ _. Bool) [
                | none ↦ false
                | some c ↦ permits_host c host
              ] in
              let test : contains host t.routing.hosts ≡ (
                  names (λ s. s.enabled) (λ s. s.host) host specs
                  || (names (λ s. s.enabled) (λ s. s.host) host grpc_specs
                      || (is_some (get host t.http_routes.by_host) || is_fallback))) =
                ground (
                  arith,
                  hosts_are,
                  contains-append host more (hosts_of t.http_routes.by_host ++ taken.0),
                  contains-append host (hosts_of t.http_routes.by_host) taken.0,
                  contains-hosts_of host t.http_routes.by_host,
                  check_routes-names host ([], []) checked specs first,
                  check_grpc_routes-names host checked taken grpc_specs second,
                  contains-more fallback host,
                ) in
              rw test (
                or_iff _ _ (names-HasSocket host specs t.routes sockets) (
                  or_iff _ _ (names-HasGrpc host grpc_specs t.grpc_routes grpcs) (
                    or_iff _ is_fallback
                      (build-HasHttp uris directory taken.1 f.http_routes t.http_routes host https)
                      (λ h. h, λ h. h))))
        ]
      ]

  module _ (file_name : Text → Option Text) (load_blocking : IpBlockingConfig → Result Text Runtime)
      (load_networks : Option Text → Result Text (List IpNetwork)) where
    validated_tables :
        (directory : Text) (f : FileConfig) (c : Config uris http)
        → validate_file uris http file_name load_blocking load_networks directory f ≡ ok c
        → (t : Tables uris http) × (build_tables uris http directory c.fallback f ≡ ok t)
          × (t.routing ≡ c.routing)
          × (t.routes ≡ c.routes)
          × (t.grpc_routes ≡ c.grpc_routes)
          × (t.http_routes ≡ c.http_routes)
    unfolding validate_file
    validated_tables directory f c h =
        elim (Result-cases (or_default f.fallback (validate_fallback uris directory) none)) [
          | inr (x, bad) ↦ absurd (ground arith)
          | inl (fallback, chosen) ↦
              elim (Result-cases (build_tables uris http directory fallback f)) [
                | inr (x, bad) ↦ absurd (ground arith)
                | inl (t, built) ↦
                    let same : c.fallback ≡ fallback = ground arith in
                    (t, rw same built, ground arith, ground arith, ground arith, ground arith)
              ]
        ]

    -- The policy of a file that is accepted has exactly the hosts for which the WebSocket, the gRPC or the
    -- HTTP table resolves some path, or which the fallback permits.
    pub validate_file-hosts_iff :
        (directory : Text) (f : FileConfig) (c : Config uris http) (host : Text)
        → validate_file uris http file_name load_blocking load_networks directory f ≡ ok c
        → (contains host c.routing.hosts ≡ true) ↔ (
            HasSocket c.routes host
            ⊎ HasGrpc c.grpc_routes host
            ⊎ HasHttp c.http_routes host
            ⊎ (elim c.fallback as (λ _. Bool) [ none ↦ false | some b ↦ permits_host b host ]
                ≡ true))
    validate_file-hosts_iff directory f c host h =
        let (t, built, policy, sockets, grpcs, https) = validated_tables directory f c h in
        rw (policy, sockets, grpcs, https) at (build_tables_iff directory c.fallback f t host built)
