-- ===== src/Proxy/Routes/Build/Serving.antt =====
-- src/http_proxy/routes.rs: which entry of the configuration serves a request.
use edge_gateway.Prelude.{
  refl, nat_eq, list_eq, ◌<◌, ◌≡◌, ◌↔◌, ◌⊎◌, inl, inr, none, some, List, suc, ok, arith, length,
  Any, Option-cases, Option, ◌≢◌,
}
use edge_gateway.Prelude.Text.{Text}
use edge_gateway.Prelude.Maps.{get}
use edge_gateway.Http.{UriLib}
use edge_gateway.Proxy.Routes.{
  exact, prefix, FileHttpRouteConfig, HttpRoute, HttpRouteTable, resolve,
}
use edge_gateway.Proxy.Routes.Resolution.{SegmentPrefix, resolve_prefix_iff}
use edge_gateway.Proxy.Routes.Build.{build}
use edge_gateway.Proxy.Routes.Build.Laws.{find, IsServed, build-find}

eq_none : (o : Option HttpRoute) → ((r : HttpRoute) → o ≢ some r) → o ≡ none
eq_none none h = refl
eq_none (some r) h = absurd (h r refl)

-- The same choice, made on the maps of a table.
abbrev Chosen : HttpRouteTable → Text → Text → HttpRoute → Type 0
Chosen t host path r =
    (find exact host path t.by_host ≡ some r)
    ⊎ ((find exact host path t.by_host ≡ none)
        × ((p : Text) × SegmentPrefix p path
            × (find prefix host p t.by_host ≡ some r)
            × ((q : Text)
                → SegmentPrefix q path
                → length p < length q
                → find prefix host q t.by_host ≡ none)))

resolve-Chosen :
    (t : HttpRouteTable) (host path : Text) (r : HttpRoute)
    → (resolve t host path ≡ some r) ↔ Chosen t host path r
unfolding resolve
resolve-Chosen t host path r = elim (Option-cases (get host t.by_host)) [
  | inl missing ↦ (
    λ h. absurd (ground arith),
    λ c. elim c [
      | inl e ↦ absurd (ground arith)
      | inr (e, (p, sp, g, top)) ↦ absurd (ground arith)
    ],
  )
  | inr (routes, found) ↦ elim (Option-cases (get path routes.exact)) [
    | inr (s, here) ↦ (
      λ h. inl (ground arith),
      λ c. elim c [ inl e ↦ ground arith | inr (e, rest) ↦ absurd (ground arith) ],
    )
    | inl absent ↦
        let longest = resolve_prefix_iff (suc (length path)) routes.prefixes path r (omega arith) in
        (
          λ h.
              let (p, sp, g, top) = longest.0 (ground arith) in
              inr (ground arith, (p, sp, ground arith, λ q sq l. ground (arith, top q sq l))),
          λ c. elim c [
            | inl e ↦ absurd (ground arith)
            | inr (e, (p, sp, g, top)) ↦
                let again = longest.1 (p, sp, ground arith, λ q sq l. ground (arith, top q sq l)) in
                ground arith
          ],
        )
  ]
]

module _ (uris : UriLib) (directory : Text) (reserved : List (Text × Text)) where
  -- `r` is the route of the enabled exact entry for the host and the path; or there is none, and it
  -- is that of the enabled prefix entry with the longest segment prefix of the path.
  abbrev pub Serves : List FileHttpRouteConfig → Text → Text → HttpRoute → Type 0
  Serves specs host path r =
      Any (IsServed uris directory reserved exact host path r) specs
      ⊎ (((s : HttpRoute) → ¬ Any (IsServed uris directory reserved exact host path s) specs)
          × ((p : Text) × SegmentPrefix p path
              × Any (IsServed uris directory reserved prefix host p r) specs
              × ((q : Text) (s : HttpRoute)
                  → SegmentPrefix q path
                  → length p < length q
                  → ¬ Any (IsServed uris directory reserved prefix host q s) specs)))

  -- A built table resolves a request to a route exactly when an entry of the configuration serves it
  -- with that route.
  pub resolve-build_iff :
      (specs : List FileHttpRouteConfig) (t : HttpRouteTable) (host path : Text) (r : HttpRoute)
      → build uris directory reserved specs ≡ ok t
      → (resolve t host path ≡ some r) ↔ Serves specs host path r
  resolve-build_iff specs t host path r h = (forth, back)
    where
      exact_is :
          (s : HttpRoute)
          → (find exact host path t.by_host ≡ some s)
            ↔ Any (IsServed uris directory reserved exact host path s) specs
      exact_is s = build-find uris directory reserved exact host path s specs t h

      prefix_is :
          (p : Text) (s : HttpRoute)
          → (find prefix host p t.by_host ≡ some s)
            ↔ Any (IsServed uris directory reserved prefix host p s) specs
      prefix_is p s = build-find uris directory reserved prefix host p s specs t h

      forth : resolve t host path ≡ some r → Serves specs host path r
      forth k = elim ((resolve-Chosen t host path r).0 k) [
        | inl e ↦ inl ((exact_is r).0 e)
        | inr (e, (p, sp, g, top)) ↦ inr (
          λ s v. cc (e, (exact_is s).1 v),
          (p, sp, (prefix_is p r).0 g, λ q s sq l v. cc (top q sq l, (prefix_is q s).1 v)),
        )
      ]

      back : Serves specs host path r → resolve t host path ≡ some r
      back (inl v) = (resolve-Chosen t host path r).1 (inl ((exact_is r).1 v))
      back (inr (no_exact, (p, sp, v, top))) = (resolve-Chosen t host path r).1 (
          inr (
            eq_none _ (λ s e. no_exact s ((exact_is s).0 e)),
            (
              p,
              sp,
              (prefix_is p r).1 v,
              λ q sq l. eq_none _ (λ s e. top q s sq l ((prefix_is q s).0 e)),
            ),
          ))
