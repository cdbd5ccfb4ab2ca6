-- ===== src/Config/File/Names.antt =====
-- src/config/mod.rs: which hosts the loops over the routes collect, and the served entries behind them.
use edge_gateway.Prelude.{
  ◌≡◌, ◌↔◌, inl, inr, refl, Bool, true, false, ◌&&◌, ◌||◌, List, [], ◌∷◌, Result, ok, err,
  Result-cases, Bool-cases, Any, All, any, arith, contains, is_some, ◌==◌, ==_iff, nat_eq, list_eq,
  pair_eq,
}
use edge_gateway.Prelude.Text.{Text}
use edge_gateway.Prelude.Maps.{Map, get}
use edge_gateway.Routing.{normalize_dns_host}
use edge_gateway.Routing.HostPaths.{HostPaths}
use edge_gateway.Routing.HostPaths.Build.{Serves}
use edge_gateway.Proxy.Routes.{HostRoutes}
use edge_gateway.Grpc.{GrpcRouteSpec}
use edge_gateway.Backends.Table.{RouteSpec}
use edge_gateway.Config.{ConfigError}
use edge_gateway.Config.File.{Taken, check_routes, check_grpc_routes, hosts_of, take_path}

-- The name of an entry is this host, in its canonical form.
unfoldable pub is_host : Text → Text → Bool
is_host k raw = elim (normalize_dns_host raw) [ err _ ↦ false | ok host ↦ host == k ]

pub is_host_iff : (k raw : Text) → (is_host k raw ≡ true) ↔ (normalize_dns_host raw ≡ ok k)
unfolding is_host
is_host_iff k raw = elim (Result-cases (normalize_dns_host raw)) [
  | inl (h, named) ↦ ground (arith, ==_iff h k)
  | inr (e, bad) ↦ ground arith
]

-- Some enabled entry is for the host.
abbrev pub names : {S : Type 0} → (S → Bool) → (S → Text) → Text → List S → Bool
names enabled host_of k = any (λ s. enabled s && is_host k (host_of s))

-- What a round of a loop has checked, and where the loop goes on.
abbrev pub Round :
    {S : Type 0}
    → (Taken → List S → Result ConfigError Taken)
    → Taken
    → Taken
    → (host path : Text) → Bool
    → List S
    → Type 0
Round loop t t' host path enabled rest =
    (h : Text) × (normalize_dns_host host ≡ ok h) × (loop (take_path t h path enabled) rest ≡ ok t')

pub check_routes-Round :
    (t t' : Taken) (r : RouteSpec) (rs : List RouteSpec)
    → check_routes t (r ∷ rs) ≡ ok t'
    → Round check_routes t t' r.host r.path r.enabled rs
unfolding check_routes
check_routes-Round t t' r rs e = elim (Result-cases (normalize_dns_host r.host)) [
  | inr (x, bad) ↦ absurd (ground arith)
  | inl (h, named) ↦ (h, named, ground arith)
]

pub check_grpc_routes-Round :
    (t t' : Taken) (r : GrpcRouteSpec) (rs : List GrpcRouteSpec)
    → check_grpc_routes t (r ∷ rs) ≡ ok t'
    → (round : Round check_grpc_routes t t' r.host r.path r.enabled rs) × (contains
          (round.0, r.path)
          t.1
        ≡ false)
unfolding check_grpc_routes
check_grpc_routes-Round t t' r rs e = elim (Result-cases (normalize_dns_host r.host)) [
  | inr (x, bad) ↦ absurd (ground arith)
  | inl (h, named) ↦ ((h, named, ground arith), ground arith)
]

-- One round puts the host of an enabled entry in.
contains-take_path :
    (k h path raw : Text) (enabled : Bool) (t : Taken)
    → normalize_dns_host raw ≡ ok h
    → contains k (take_path t h path enabled).0 ≡ ((enabled && is_host k raw) || contains k t.0)
unfolding is_host
contains-take_path k h path raw enabled t named = ground arith

pub check_routes-names :
    (k : Text) (t t' : Taken) (rs : List RouteSpec)
    → check_routes t rs ≡ ok t'
    → contains k t'.0 ≡ (contains k t.0 || names (λ s. s.enabled) (λ s. s.host) k rs)
unfolding check_routes
check_routes-names k t t' [] e = ground arith
check_routes-names k t t' (r ∷ rs) e =
    let (h, named, rest) = check_routes-Round t t' r rs e in
    ground (
      arith,
      check_routes-names k (take_path t h r.path r.enabled) t' rs rest,
      contains-take_path k h r.path r.host r.enabled t named,
    )

pub check_grpc_routes-names :
    (k : Text) (t t' : Taken) (rs : List GrpcRouteSpec)
    → check_grpc_routes t rs ≡ ok t'
    → contains k t'.0 ≡ (contains k t.0 || names (λ s. s.enabled) (λ s. s.host) k rs)
unfolding check_grpc_routes
check_grpc_routes-names k t t' [] e = ground arith
check_grpc_routes-names k t t' (r ∷ rs) e =
    let ((h, named, rest), fresh) = check_grpc_routes-Round t t' r rs e in
    ground (
      arith,
      check_grpc_routes-names k (take_path t h r.path r.enabled) t' rs rest,
      contains-take_path k h r.path r.host r.enabled t named,
    )

module _ {E B Spec V : Type 0} (step : B → Spec → Result E B) (paths : B → List (Text × Text))
    (by_host : B → HostPaths V) (enabled : Spec → Bool) (path_of host_of : Spec → Text)
    (Yields : Spec → Text → V → Type 0)
    (named : (spec : Spec) (h : Text) (r : V)
      → Yields spec h r
      → normalize_dns_host (host_of spec) ≡ ok h) where
  -- Where every entry yields a route, an enabled entry names the host exactly when some path of the
  -- host is served.
  pub names_iff :
      (k : Text) (specs : List Spec)
      → All (λ spec. (h : Text) × (r : V) × Yields spec h r) specs
      → (names enabled host_of k specs ≡ true) ↔ (
          (path : Text) × (r : V) × Any
            (Serves step paths by_host enabled path_of Yields k path r)
            specs)
  names_iff k specs yields = (forth specs yields, λ (path, r, s). back specs path r s)
    where
      forth :
          (specs : List Spec)
          → All (λ spec. (h : Text) × (r : V) × Yields spec h r) specs
          → names enabled host_of k specs ≡ true
          → (path : Text) × (r : V) × Any
              (Serves step paths by_host enabled path_of Yields k path r)
              specs
      forth [] ys e = absurd (cc)
      forth (spec ∷ specs) ((h, r, y), ys) e =
          elim (Bool-cases (enabled spec && is_host k (host_of spec))) [
            | inr other ↦ let (path, q, s) = forth specs ys (ground arith) in (path, q, inr s)
            | inl hit ↦
                let same : h ≡ k = ground (arith, is_host_iff k (host_of spec), named spec h r y) in
                (path_of spec, r, inl (ground arith, refl, rw (← same) y))
          ]

      back :
          (specs : List Spec) (path : Text) (r : V)
          → Any (Serves step paths by_host enabled path_of Yields k path r) specs
          → names enabled host_of k specs ≡ true
      back [] path r s = elim s [ ]
      back (spec ∷ specs) path r (inl (on, at, y)) =
          ground (arith, (is_host_iff k (host_of spec)).1 (named spec k r y))
      back (spec ∷ specs) path r (inr s) = ground (arith, back specs path r s)

-- The hosts of the HTTP table are its keys.
pub contains-hosts_of :
    (k : Text) (m : Map Text HostRoutes) → contains k (hosts_of m) ≡ is_some (get k m)
unfolding hosts_of get
contains-hosts_of k [] = refl
contains-hosts_of k ((h, routes) ∷ m) = ground (arith, contains-hosts_of k m)
