-- ===== src/Config/File/Disjoint.antt =====
-- src/config/mod.rs: the hosts and paths of the WebSocket and gRPC tables, and the exact HTTP entries.
-- Prefix entries for HTTP are not checked against the other tables.
use edge_gateway.Prelude.{
  ◌≡◌, ◌≢◌, inl, inr, Bool, true, false, Option, some, List, [], ◌∷◌, map, ok, Result-cases, Any,
  arith, contains, ==_iff, nat_eq, list_eq, pair_eq,
}
use edge_gateway.Prelude.Text.{Text}
use edge_gateway.Http.{UriLib, HeaderLib}
use edge_gateway.Proxy.Routes.{exact, FileHttpRouteConfig, HttpRoute}
use edge_gateway.Proxy.Routes.Build
use edge_gateway.Proxy.Routes.Build.Laws as BuildLaws
use edge_gateway.Grpc
use edge_gateway.Grpc.{GrpcRouteSpec, GrpcRoute}
use edge_gateway.Grpc.Laws as GrpcLaws
use edge_gateway.Backends.Table
use edge_gateway.Backends.Table.{RouteSpec, Route}
use edge_gateway.Backends.Table.Laws as TableLaws
use edge_gateway.Config.File.{
  Taken, check_routes, check_grpc_routes, Tables, build_tables, FileConfig, spec_of, grpc_spec_of,
  take_path, HttpRouteTable, FallbackConfig,
}
use edge_gateway.Config.File.Names.{check_routes-Round, check_grpc_routes-Round}
use edge_gateway.Proxy.Routes.Build.{add_routes}
use edge_gateway.Proxy.Routes.Build.Laws.{find}

abbrev taken_path : Text → Text → Taken → Bool
taken_path host path t = contains {A = Text × Text} (host, path) t.1

-- What a loop has taken stays taken.
check_routes-stays :
    (host path : Text) (t t' : Taken) (rs : List RouteSpec)
    → check_routes t rs ≡ ok t'
    → taken_path host path t ≡ true
    → taken_path host path t' ≡ true
unfolding check_routes
check_routes-stays host path t t' [] e k = ground arith
check_routes-stays host path t t' (r ∷ rs) e k =
    let (h, named, rest) = check_routes-Round t t' r rs e in
    check_routes-stays host path (take_path t h r.path r.enabled) t' rs rest (ground arith)

check_grpc_routes-stays :
    (host path : Text) (t t' : Taken) (rs : List GrpcRouteSpec)
    → check_grpc_routes t rs ≡ ok t'
    → taken_path host path t ≡ true
    → taken_path host path t' ≡ true
unfolding check_grpc_routes
check_grpc_routes-stays host path t t' [] e k = ground arith
check_grpc_routes-stays host path t t' (r ∷ rs) e k =
    let ((h, named, rest), fresh) = check_grpc_routes-Round t t' r rs e in
    check_grpc_routes-stays host path (take_path t h r.path r.enabled) t' rs rest (ground arith)

taken_here :
    (h path host at : Text) (enabled : Bool) (t : Taken)
    → h ≡ host
    → path ≡ at
    → taken_path host at (take_path t h path enabled) ≡ true
taken_here h path host at enabled t e f = ground (arith, ==_iff h host, ==_iff path at)

module _ (uris : UriLib) (http : HeaderLib) where
  check_routes-takes :
      (host path : Text) (r : Route uris http) (t t' : Taken) (rs : List RouteSpec)
      → check_routes t rs ≡ ok t'
      → Any (TableLaws.IsServed uris http host path r) rs
      → taken_path host path t' ≡ true
  check_routes-takes host path r t t' [] e s = elim s [ ]
  check_routes-takes host path r t t' (s ∷ rs) e (inl (on, at, y)) =
      let (h, named, rest) = check_routes-Round t t' s rs e in
      check_routes-stays host path (take_path t h s.path s.enabled) t' rs rest
        (taken_here h s.path host path s.enabled t (ground (arith, named, y.host_is)) at)
  check_routes-takes host path r t t' (s ∷ rs) e (inr more) =
      let (h, named, rest) = check_routes-Round t t' s rs e in
      check_routes-takes host path r (take_path t h s.path s.enabled) t' rs rest more

  check_grpc_routes-refuses :
      (host path : Text) (r : GrpcRoute uris http) (t t' : Taken) (rs : List GrpcRouteSpec)
      → check_grpc_routes t rs ≡ ok t'
      → taken_path host path t ≡ true
      → ¬ Any (GrpcLaws.IsServed uris http host path r) rs
  check_grpc_routes-refuses host path r t t' [] e k s = s
  check_grpc_routes-refuses host path r t t' (s ∷ rs) e k (inl (on, at, y)) =
      let ((h, named, rest), fresh) = check_grpc_routes-Round t t' s rs e in
      let same : h ≡ host = ground (arith, named, y.host_is) in cc (same, at, fresh, k)
  check_grpc_routes-refuses host path r t t' (s ∷ rs) e k (inr more) =
      let ((h, named, rest), fresh) = check_grpc_routes-Round t t' s rs e in
      check_grpc_routes-refuses host path r (take_path t h s.path s.enabled) t' rs rest
        (ground arith) more

  check_grpc_routes-takes :
      (host path : Text) (r : GrpcRoute uris http) (t t' : Taken) (rs : List GrpcRouteSpec)
      → check_grpc_routes t rs ≡ ok t'
      → Any (GrpcLaws.IsServed uris http host path r) rs
      → taken_path host path t' ≡ true
  check_grpc_routes-takes host path r t t' [] e s = elim s [ ]
  check_grpc_routes-takes host path r t t' (s ∷ rs) e (inl (on, at, y)) =
      let ((h, named, rest), fresh) = check_grpc_routes-Round t t' s rs e in
      check_grpc_routes-stays host path (take_path t h s.path s.enabled) t' rs rest
        (taken_here h s.path host path s.enabled t (ground (arith, named, y.host_is)) at)
  check_grpc_routes-takes host path r t t' (s ∷ rs) e (inr more) =
      let ((h, named, rest), fresh) = check_grpc_routes-Round t t' s rs e in
      check_grpc_routes-takes host path r (take_path t h s.path s.enabled) t' rs rest more

-- An accepted exact HTTP entry is not for a taken host and path.
module _ (uris : UriLib) (directory : Text) (reserved : List (Text × Text)) where
  add_route-refuses :
      (host path : Text) (r : HttpRoute) (b b' : Build.Building) (spec : FileHttpRouteConfig)
      → Build.add_route uris directory reserved b spec ≡ ok b'
      → BuildLaws.IsServed uris directory reserved exact host path r spec
      → contains {A = Text × Text} (host, path) reserved ≡ false
  unfolding Build.add_route
  add_route-refuses host path r b b' spec e s =
      let unused : contains {A = Text × Text} (host, spec.path) reserved ≡ false =
        ground (arith, s.host_is, s.kind_is) in
      cc (unused, s.path_is)

  add_routes-refuses :
      (host path : Text) (r : HttpRoute) (b b' : Build.Building) (specs : List FileHttpRouteConfig)
      → Build.add_routes uris directory reserved b specs ≡ ok b'
      → Any (BuildLaws.IsServed uris directory reserved exact host path r) specs
      → contains {A = Text × Text} (host, path) reserved ≡ false
  unfolding Build.add_routes
  add_routes-refuses host path r b b' [] e s = elim s [ ]
  add_routes-refuses host path r b b' (spec ∷ specs) e s =
      elim (Result-cases (Build.add_route uris directory reserved b spec)) [
        | inr (x, bad) ↦ absurd (ground arith)
        | inl (c, added) ↦ elim s [
          | inl here ↦ add_route-refuses host path r b c spec added here
          | inr more ↦ add_routes-refuses host path r c b' specs (ground arith) more
        ]
      ]

  build-refuses :
      (host path : Text) (r : HttpRoute) (t : HttpRouteTable) (specs : List FileHttpRouteConfig)
      → Build.build uris directory reserved specs ≡ ok t
      → find exact host path t.by_host ≡ some r
      → contains {A = Text × Text} (host, path) reserved ≡ false
  unfolding Build.build
  build-refuses host path r t specs e found =
      elim (Result-cases (Build.add_routes uris directory reserved Build.no_entries specs)) [
        | inr (x, bad) ↦ absurd (ground arith)
        | inl (b, added) ↦
            add_routes-refuses host path r Build.no_entries b specs added
              ((BuildLaws.build-find uris directory reserved exact host path r specs t e).0 found)
      ]

module _ (uris : UriLib) (http : HeaderLib) where
  -- A host and path belongs to one at most of the WebSocket table, the gRPC table and the exact HTTP
  -- entries.
  pub record IsExclusive (host path : Text) (t : Tables uris http) : Type 0 where
    pub sockets_first :
        (r : Route uris http)
        → Table.resolve uris http t.routes host path ≡ some r
        → ((g : GrpcRoute uris http) → Grpc.resolve uris http t.grpc_routes host path ≢ some g)
          × ((x : HttpRoute) → find exact host path t.http_routes.by_host ≢ some x)
    pub grpc_next :
        (g : GrpcRoute uris http)
        → Grpc.resolve uris http t.grpc_routes host path ≡ some g
        → (x : HttpRoute) → find exact host path t.http_routes.by_host ≢ some x

  -- In the tables of an accepted file, a host and path that the WebSocket table resolves is not resolved
  -- by the gRPC table and is no exact HTTP entry, and one that the gRPC table resolves is no exact HTTP
  -- entry; a prefix HTTP entry may have the same host and path.
  pub build_tables-IsExclusive :
      (directory : Text) (fallback : Option FallbackConfig) (f : FileConfig) (t : Tables uris http)
      (host path : Text)
      → build_tables uris http directory fallback f ≡ ok t
      → IsExclusive host path t
  unfolding build_tables
  build_tables-IsExclusive directory fallback f t host path e =
      let specs = map spec_of f.routes in
      let grpc_specs = map grpc_spec_of f.grpc_routes in
      elim (Result-cases (check_routes ([], []) specs)) [
        | inr (x, bad) ↦ absurd (ground arith)
        | inl (checked, first) ↦ elim (Result-cases (check_grpc_routes checked grpc_specs)) [
          | inr (x, bad) ↦ absurd (ground arith)
          | inl (taken, second) ↦
              let sockets : Table.build uris http specs ≡ ok t.routes = ground arith in
              let grpcs : Grpc.build uris http grpc_specs ≡ ok t.grpc_routes = ground arith in
              let https : Build.build uris directory taken.1 f.http_routes ≡ ok t.http_routes =
                ground arith in
              let free : (x : HttpRoute)
                  → find exact host path t.http_routes.by_host ≡ some x
                  → taken_path host path taken ≡ false =
                λ x found.
                  build-refuses uris directory taken.1 host path x t.http_routes f.http_routes https
                    found in
              record {
                sockets_first = λ r found.
                    let served =
                      (TableLaws.resolve_table_iff uris http specs t.routes host path r sockets).0
                        found in
                    let mark =
                      check_routes-takes uris http host path r ([], []) checked specs first
                        served in
                    (
                      λ g other.
                          check_grpc_routes-refuses uris http host path g checked taken grpc_specs
                            second mark
                            ((GrpcLaws.resolve_built_iff uris http grpc_specs t.grpc_routes host
                                path g grpcs).0
                              other),
                      λ x other. cc (
                        free x other,
                        check_grpc_routes-stays host path checked taken grpc_specs second mark,
                      ),
                    );
                grpc_next = λ g found. λ x other.
                    let served =
                      (GrpcLaws.resolve_built_iff uris http grpc_specs t.grpc_routes host path g
                          grpcs).0
                        found in
                    cc (
                      free x other,
                      check_grpc_routes-takes uris http host path g checked taken grpc_specs second
                          served,
                    );
              }
        ]
      ]
