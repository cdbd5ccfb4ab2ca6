-- ===== src/Proxy/Routes/Build/Laws.antt =====
-- src/http_proxy/routes.rs: the table that `build` makes serves exactly the enabled entries.
use edge_gateway.Prelude.{
  ◌+◌, ◌≡◌, ◌↔◌, ◌⊎◌, inl, inr, refl, Bool, true, false, ◌&&◌, Option, none, some, List, [], ◌∷◌,
  ok, arith, ==_iff, Any, Result-cases, Bool-cases, contains, nat_eq, list_eq, pair_eq, bool_eq,
  ◌==◌, if◌then◌else◌, unwrap_or, ap, ◌||◌, &&-eq-true,
}
use edge_gateway.Prelude.Text.{Text}
use edge_gateway.Prelude.Maps.{Map, get, get-insert}
use edge_gateway.Http.{UriLib}
use edge_gateway.Routing.{normalize_dns_host}
use edge_gateway.Proxy.Config.{UpstreamConfig, validate}
use edge_gateway.Proxy.Routes.{
  PathMatch, exact, prefix, is_prefix, FileHttpRouteConfig, HttpRoute, HostRoutes, HttpRouteTable,
}
use edge_gateway.Proxy.Routes.Build.{
  Building, RouteKey, route_for, put_route, no_routes, place, add_route, add_routes, build,
}

-- The route of a kind that the table has for a host and a path.
abbrev pub routes_of : PathMatch → HostRoutes → Map Text HttpRoute
routes_of exact routes = routes.exact
routes_of prefix routes = routes.prefixes

abbrev pub find : PathMatch → Text → Text → Map Text HostRoutes → Option HttpRoute
find kind host path m = elim (get host m) [
  | none ↦ none
  | some routes ↦ get path (routes_of kind routes)
]

pub find-put_route :
    (kind : PathMatch) (r : HttpRoute) (path : Text) (routes : HostRoutes) (k : PathMatch)
    → get path (routes_of kind (put_route k r routes)) ≡ (
        if is_prefix kind == is_prefix k && r.path == path
        then some r
        else get path (routes_of kind routes))
find-put_route exact r path routes exact = get-insert r.path path r routes.exact
find-put_route exact r path routes prefix = refl
find-put_route prefix r path routes exact = refl
find-put_route prefix r path routes prefix = get-insert r.path path r routes.prefixes

find-unwrap_or :
    (kind : PathMatch) (host path : Text) (m : Map Text HostRoutes)
    → find kind host path m ≡ get path (routes_of kind (unwrap_or no_routes (get host m)))
unfolding get
find-unwrap_or exact host path m = ground arith
find-unwrap_or prefix host path m = ground arith

-- A placed route is found under its own kind, host and path, and hides nothing else.
find-place :
    (kind : PathMatch) (host path : Text) (r : HttpRoute) (m : Map Text HostRoutes)
    → find kind host path (place r m) ≡ (
        if r.host == host && (is_prefix kind == is_prefix r.path_match && r.path == path)
        then some r
        else find kind host path m)
unfolding place
find-place kind host path r m = elim (Bool-cases (r.host == host)) [
  | inr other ↦ ground (
    arith,
    get-insert r.host host (put_route r.path_match r (unwrap_or no_routes (get r.host m))) m,
  )
  | inl same ↦
      let e : r.host ≡ host = (==_iff r.host host).0 same in
      ground (
        arith,
        ap {B = Option HostRoutes} (λ h. get h m) e,
        find-unwrap_or kind host path m,
        find-put_route kind r path (unwrap_or no_routes (get r.host m)) r.path_match,
        get-insert r.host host (put_route r.path_match r (unwrap_or no_routes (get r.host m))) m,
      )
]

abbrev seen : PathMatch → Text → Text → List RouteKey → Bool
seen kind host path keys = contains {A = RouteKey} ((host, path), is_prefix kind) keys

is_prefix-injective : (k l : PathMatch) → (is_prefix k == is_prefix l) ≡ true → l ≡ k
is_prefix-injective exact exact h = refl
is_prefix-injective exact prefix h = cc
is_prefix-injective prefix exact h = cc
is_prefix-injective prefix prefix h = refl

module _ (uris : UriLib) (directory : Text) (reserved : List (Text × Text)) where
  -- An entry of the configuration is enabled, is for this host, path and kind, and yields the route.
  pub record IsServed (kind : PathMatch) (host path : Text) (r : HttpRoute)
      (spec : FileHttpRouteConfig) : Type 0 where
    pub enabled : spec.enabled ≡ true
    pub host_is : normalize_dns_host spec.host ≡ ok host
    pub path_is : spec.path ≡ path
    pub kind_is : spec.path_match ≡ kind
    pub upstream : UpstreamConfig
    pub validated : validate uris directory spec.upstream ≡ ok upstream
    pub route_is : r ≡ route_for spec host upstream

  -- What one round does to the local variables.
  pub record IsRound (b b' : Building) (spec : FileHttpRouteConfig) : Type 0 where
    pub host : Text
    named : normalize_dns_host spec.host ≡ ok host
    pub upstream : UpstreamConfig
    validated : validate uris directory spec.upstream ≡ ok upstream
    fresh_id : contains spec.id b.ids ≡ false
    ids : b'.ids ≡ spec.id ∷ b.ids
    fresh_key : seen spec.path_match host spec.path b.keys ≡ false
    keys : b'.keys ≡ ((host, spec.path), is_prefix spec.path_match) ∷ b.keys
    pub by_host :
        b'.by_host
        ≡ (if spec.enabled then place (route_for spec host upstream) b.by_host else b.by_host)
    count : b'.enabled_count ≡ (if spec.enabled then b.enabled_count + 1 else b.enabled_count)

  pub add_route-IsRound :
      (b b' : Building) (spec : FileHttpRouteConfig)
      → add_route uris directory reserved b spec ≡ ok b'
      → IsRound b b' spec
  unfolding add_route
  add_route-IsRound b b' spec h = elim (Result-cases (normalize_dns_host spec.host)) [
    | inr (e, bad) ↦ absurd (ground arith)
    | inl (name, named) ↦ elim (Result-cases (validate uris directory spec.upstream)) [
      | inr (e, bad) ↦ absurd (ground arith)
      | inl (up, validated) ↦ record {
        host = name;
        named = named;
        upstream = up;
        validated = validated;
        fresh_id = ground arith;
        ids = ground arith;
        fresh_key = ground arith;
        keys = ground arith;
        by_host = ground arith;
        count = ground arith;
      }
    ]
  ]

  -- Every route of the table has its key among the seen ones.
  abbrev KeysKnown : Building → Type 0
  KeysKnown b =
      (kind : PathMatch) (host path : Text) (r : HttpRoute)
      → find kind host path b.by_host ≡ some r
      → seen kind host path b.keys ≡ true

  module _ {b b' : Building} {spec : FileHttpRouteConfig} (round : IsRound b b' spec) where
    -- The key of the entry, and the route that it would make.
    matches : PathMatch → Text → Text → Bool
    matches kind host path =
        round.host == host && (is_prefix kind == is_prefix spec.path_match && spec.path == path)

    find-round :
        (kind : PathMatch) (host path : Text)
        → find kind host path b'.by_host ≡ (
            if spec.enabled && matches kind host path
            then some (route_for spec round.host round.upstream)
            else find kind host path b.by_host)
    unfolding matches
    find-round kind host path = elim (Bool-cases spec.enabled) [
      | inl on ↦ ground (
        arith,
        ap (find kind host path) round.by_host,
        find-place kind host path (route_for spec round.host round.upstream) b.by_host,
      )
      | inr off ↦ ground (arith, ap (find kind host path) round.by_host)
    ]

    contains-round :
        (kind : PathMatch) (host path : Text)
        → seen kind host path b'.keys ≡ (matches kind host path || seen kind host path b.keys)
    unfolding matches
    contains-round kind host path = ground (arith, ap {B = Bool} (seen kind host path) round.keys)

    matches-true :
        (kind : PathMatch) (host path : Text)
        → matches kind host path ≡ true
        → (round.host ≡ host) × (spec.path_match ≡ kind) × (spec.path ≡ path)
    unfolding matches
    matches-true kind host path h = (
      (==_iff round.host host).0 (ground arith),
      is_prefix-injective kind spec.path_match (ground arith),
      (==_iff spec.path path).0 (ground arith),
    )

    matches_self : matches spec.path_match round.host spec.path ≡ true
    unfolding matches
    matches_self = ground (
      arith,
      ==_iff round.host round.host,
      ==_iff (is_prefix spec.path_match) (is_prefix spec.path_match),
      ==_iff spec.path spec.path,
    )

    -- A key of the entry's own was not seen before.
    unseen :
        (kind : PathMatch) (host path : Text)
        → matches kind host path ≡ true
        → seen kind host path b.keys ≡ false
    unseen kind host path h =
        let (same_host, same_kind, same_path) = matches-true kind host path h in
        rw (← same_host, ← same_kind, ← same_path) round.fresh_key

    round-KeysKnown : KeysKnown b → KeysKnown b'
    round-KeysKnown known kind host path r h =
        ground
          (arith, find-round kind host path, contains-round kind host path, known kind host path r)

    find-round_iff :
        (kind : PathMatch) (host path : Text) (r : HttpRoute)
        → KeysKnown b
        → (find kind host path b'.by_host ≡ some r)
          ↔ ((find kind host path b.by_host ≡ some r) ⊎ IsServed kind host path r spec)
    find-round_iff kind host path r known = (new, old)
      where
        new :
            find kind host path b'.by_host ≡ some r
            → (find kind host path b.by_host ≡ some r) ⊎ IsServed kind host path r spec
        new h = elim (Bool-cases (spec.enabled && matches kind host path)) [
          | inr other ↦ inl (ground (arith, find-round kind host path))
          | inl hit ↦
              let (same_host, same_kind, same_path) =
                matches-true kind host path (&&-eq-true {a = spec.enabled} hit).1 in
              inr (record {
                enabled = (&&-eq-true {a = spec.enabled} hit).0;
                host_is = rw (← same_host) round.named;
                path_is = same_path;
                kind_is = same_kind;
                upstream = round.upstream;
                validated = round.validated;
                route_is = rw (← same_host) (ground (arith, find-round kind host path));
              })
        ]

        old :
            (find kind host path b.by_host ≡ some r) ⊎ IsServed kind host path r spec
            → find kind host path b'.by_host ≡ some r
        old (inl h) =
            ground
              (arith, find-round kind host path, known kind host path r h, unseen kind host path)
        old (inr v) =
            let same_host : round.host ≡ host = cc (round.named, v.host_is) in
            let same_upstream : round.upstream ≡ v.upstream = cc (round.validated, v.validated) in
            let hit : matches kind host path ≡ true =
              rw (← same_host, ← v.kind_is, ← v.path_is) matches_self in
            ground (
              arith,
              find-round kind host path,
              v.enabled,
              hit,
              v.route_is,
              same_host,
              same_upstream,
            )

  module _ (kind : PathMatch) (host path : Text) (r : HttpRoute) where
    add_routes-find :
        (b b' : Building) (specs : List FileHttpRouteConfig)
        → KeysKnown b
        → add_routes uris directory reserved b specs ≡ ok b'
        → (find kind host path b'.by_host ≡ some r)
          ↔ ((find kind host path b.by_host ≡ some r) ⊎ Any (IsServed kind host path r) specs)
    unfolding add_routes
    add_routes-find b b' [] known h =
        (λ f. inl (ground arith), λ f. elim f [ inl f ↦ ground arith | inr f ↦ absurd f ])
    add_routes-find b b' (spec ∷ specs) known h =
        elim (Result-cases (add_route uris directory reserved b spec)) [
          | inr (e, bad) ↦ absurd (ground arith)
          | inl (next, added) ↦
              let round = add_route-IsRound b next spec added in
              let now = find-round_iff round kind host path r known in
              let rest =
                add_routes-find next b' specs (round-KeysKnown round known) (ground arith) in
              (
                λ f. elim (rest.0 f) [
                  | inl g ↦ elim (now.0 g) [ inl g' ↦ inl g' | inr v ↦ inr (inl v) ]
                  | inr later ↦ inr (inr later)
                ],
                λ f. elim f [
                  | inl g ↦ rest.1 (inl (now.1 (inl g)))
                  | inr any ↦ elim any [
                    | inl v ↦ rest.1 (inl (now.1 (inr v)))
                    | inr later ↦ rest.1 (inr later)
                  ]
                ],
              )
        ]

    -- The maps of a built table hold exactly the enabled entries, under their kind, host and path.
    pub build-find :
        (specs : List FileHttpRouteConfig) (t : HttpRouteTable)
        → build uris directory reserved specs ≡ ok t
        → (find kind host path t.by_host ≡ some r) ↔ Any (IsServed kind host path r) specs
    unfolding build get
    build-find specs t h =
        let start : Building = record { ids = []; keys = []; by_host = []; enabled_count = 0 } in
        elim (Result-cases (add_routes uris directory reserved start specs)) [
          | inr (e, bad) ↦ absurd (ground arith)
          | inl (b, added) ↦
              let all = add_routes-find start b specs (λ k x p s f. cc) added in
              let same : t.by_host ≡ b.by_host = ground arith in
              rw same (λ f. elim (all.0 f) [ inl g ↦ cc | inr any ↦ any ], λ f. all.1 (inr f))
        ]
