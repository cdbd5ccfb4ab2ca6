-- ===== src/Routing/HostPaths.antt =====
-- The maps from a host and an exact path that src/grpc/routes.rs and src/routes/table.rs keep.
pub mod Build
use edge_gateway.Prelude.{
  ◌≡◌, ◌&&◌, Option, none, some, if◌then◌else◌, ◌==◌, nat_eq, list_eq, unwrap_or, arith, [], ==_iff,
}
use edge_gateway.Prelude.Text.{Text}
use edge_gateway.Prelude.Maps.{Map, get, insert, get-insert}

abbrev pub HostPaths {ℓ} : Type ℓ → Type ℓ
HostPaths V = Map Text (Map Text V)

module _ {ℓ} {V : Type ℓ} where
  -- `get(host)?.get(path).cloned()`
  unfoldable pub lookup : Text → Text → HostPaths V → Option V
  lookup host path m = elim (get host m) [ none ↦ none | some paths ↦ get path paths ]

  -- `entry(host).or_default().insert(path, route)`
  unfoldable pub put : Text → Text → V → HostPaths V → HostPaths V
  put host path v m = insert host (insert path v (unwrap_or [] (get host m))) m

  -- Below its host and path a route is found, and all others stay.
  pub lookup-put :
      (host path h p : Text) (v : V) (m : HostPaths V)
      → lookup h p (put host path v m)
        ≡ (if (host == h) && (path == p) then some v else lookup h p m)
  unfolding lookup put get
  lookup-put host path h p v m = ground (
    arith,
    get-insert host h (insert path v (unwrap_or [] (get host m))) m,
    get-insert path p v (unwrap_or [] (get host m)),
    ==_iff host h,
  )
