-- ===== src/Proxy/Routes/Build/Hosts.antt =====
-- src/http_proxy/routes.rs: the hosts of the table, and the paths that it resolves for them.
use edge_gateway.Prelude.{
  ◌≡◌, ◌↔◌, true, inl, inr, some, is_some, List, [], ◌∷◌, ok, Result-cases, Option-cases,
  Bool-cases, arith, ==_iff, ◌==◌, nat_eq, list_eq, unwrap_or,
}
use edge_gateway.Prelude.Text.{Text}
use edge_gateway.Prelude.Maps.{Map, get, get-insert}
use edge_gateway.Http.{UriLib}
use edge_gateway.Proxy.Routes.{
  PathMatch, exact, prefix, HttpRoute, HostRoutes, HttpRouteTable, FileHttpRouteConfig, resolve,
  resolve_prefix,
}
use edge_gateway.Proxy.Routes.Build.{
  Building, no_entries, no_routes, put_route, place, route_for, add_route, add_routes, build,
}
use edge_gateway.Proxy.Routes.Build.Laws.{routes_of, find-put_route, add_route-IsRound}

-- Some path resolves to a route of the host.
abbrev pub HasHttp : HttpRouteTable → Text → Type 0
HasHttp t host = (path : Text) × (r : HttpRoute) × (resolve t host path ≡ some r)

-- There is a route under some kind and path.
abbrev IsServing : HostRoutes → Type 0
IsServing routes =
    (kind : PathMatch) × (path : Text) × (r : HttpRoute) × (get path (routes_of kind routes)
      ≡ some r)

abbrev AllServing : Map Text HostRoutes → Type 0
AllServing m = (k : Text) (routes : HostRoutes) → get k m ≡ some routes → IsServing routes

put_route-IsServing :
    (r : HttpRoute) (routes : HostRoutes) → IsServing (put_route r.path_match r routes)
put_route-IsServing r routes = (
  r.path_match,
  r.path,
  r,
  ground (arith, find-put_route r.path_match r r.path routes r.path_match, ==_iff r.path r.path),
)

place-AllServing : (r : HttpRoute) (m : Map Text HostRoutes) → AllServing m → AllServing (place r m)
unfolding place
place-AllServing r m all k routes found =
    let put = put_route r.path_match r (unwrap_or no_routes (get r.host m)) in
    elim (Bool-cases (r.host == k)) [
      | inl same ↦
          let here : routes ≡ put = ground (arith, get-insert r.host k put m) in
          rw here (put_route-IsServing r (unwrap_or no_routes (get r.host m)))
      | inr other ↦ all k routes (ground (arith, get-insert r.host k put m))
    ]

module _ (uris : UriLib) (directory : Text) (reserved : List (Text × Text)) where
  add_route-AllServing :
      (b b' : Building) (spec : FileHttpRouteConfig)
      → add_route uris directory reserved b spec ≡ ok b'
      → AllServing b.by_host
      → AllServing b'.by_host
  add_route-AllServing b b' spec e all =
      let round = add_route-IsRound uris directory reserved b b' spec e in
      let placed = route_for spec round.host round.upstream in
      elim (Bool-cases spec.enabled) [
        | inl on ↦
            let same : b'.by_host ≡ place placed b.by_host = ground (arith, round.by_host) in
            rw same (place-AllServing placed b.by_host all)
        | inr off ↦ let same : b'.by_host ≡ b.by_host = ground (arith, round.by_host) in rw same all
      ]

  add_routes-AllServing :
      (b b' : Building) (specs : List FileHttpRouteConfig)
      → add_routes uris directory reserved b specs ≡ ok b'
      → AllServing b.by_host
      → AllServing b'.by_host
  unfolding add_routes
  add_routes-AllServing b b' [] e all = let same : b' ≡ b = ground arith in rw same all
  add_routes-AllServing b b' (spec ∷ specs) e all =
      elim (Result-cases (add_route uris directory reserved b spec)) [
        | inr (x, bad) ↦ absurd (ground arith)
        | inl (c, added) ↦
            add_routes-AllServing c b' specs (ground arith)
              (add_route-AllServing b c spec added all)
      ]

  build-AllServing :
      (specs : List FileHttpRouteConfig) (t : HttpRouteTable)
      → build uris directory reserved specs ≡ ok t
      → AllServing t.by_host
  unfolding build get
  build-AllServing specs t e =
      elim (Result-cases (add_routes uris directory reserved no_entries specs)) [
        | inr (x, bad) ↦ absurd (ground arith)
        | inl (b, added) ↦
            let same : t.by_host ≡ b.by_host = ground arith in
            rw same
              (add_routes-AllServing no_entries b specs added (λ k routes found. ground arith))
      ]

resolve-IsServing :
    (t : HttpRouteTable) (host : Text) (routes : HostRoutes)
    → get host t.by_host ≡ some routes
    → IsServing routes
    → HasHttp t host
unfolding resolve resolve_prefix
resolve-IsServing t host routes e (exact, path, r, found) = (path, r, ground arith)
resolve-IsServing t host routes e (prefix, path, r, found) =
    elim (Option-cases (get path routes.exact)) [
      | inl none' ↦ (path, r, ground arith)
      | inr (s, first) ↦ (path, s, ground arith)
    ]

resolve-known :
    (t : HttpRouteTable) (host path : Text) (r : HttpRoute)
    → resolve t host path ≡ some r
    → is_some (get host t.by_host) ≡ true
unfolding resolve
resolve-known t host path r e = ground arith

-- A host is in the table exactly when it has such a path.
pub build-HasHttp :
    (uris : UriLib) (directory : Text) (reserved : List (Text × Text))
    (specs : List FileHttpRouteConfig) (t : HttpRouteTable) (host : Text)
    → build uris directory reserved specs ≡ ok t
    → (is_some (get host t.by_host) ≡ true) ↔ HasHttp t host
build-HasHttp uris directory reserved specs t host e = (
  λ known. elim (Option-cases (get host t.by_host)) [
    | inl none' ↦ absurd (ground arith)
    | inr (routes, found) ↦
        resolve-IsServing t host routes found
          (build-AllServing uris directory reserved specs t e host routes found)
  ],
  λ (path, r, found). resolve-known t host path r found,
)
