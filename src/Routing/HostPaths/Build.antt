-- ===== src/Routing/HostPaths/Build.antt =====
-- The loop of `GrpcRouteTable::build` and of `RouteTable::build`, whose rounds refuse a host and path
-- that was there before: which entry a lookup finds at the end.
use edge_gateway.Prelude.{
  ◌≡◌, ◌≢◌, ◌↔◌, ◌∙◌, refl, Bool, true, false, ◌&&◌, some, List, [], ◌∷◌, Result, ok, ◌>>=◌,
  Result-cases, inl, inr, ◌⊎◌, Any, All, arith, contains, ◌==◌, ==_iff, ==_refl, nat_eq, list_eq,
  pair_eq, if◌then◌else◌, Bool-cases,
}
use edge_gateway.Prelude.Text.{Text}
use edge_gateway.Prelude.Maps.{get}
use edge_gateway.Routing.HostPaths.{HostPaths, lookup, put, lookup-put}

-- The rounds over the entries.
unfoldable pub add_all : {E B Spec : Type 0} → (B → Spec → Result E B) → B → List Spec → Result E B
add_all step b [] = ok b
add_all step b (spec ∷ specs) = step b spec >>= λ b'. add_all step b' specs

module _ {E B Spec V : Type 0} (step : B → Spec → Result E B) (paths : B → List (Text × Text))
    (by_host : B → HostPaths V) (enabled : Spec → Bool) (path_of : Spec → Text)
    (Yields : Spec → Text → V → Type 0) where
  -- What one round does: the key is new, and an enabled entry's route is put below it.
  pub record Placed (b b' : B) (spec : Spec) : Type 0 where
    pub host : Text
    pub route : V
    pub yields : Yields spec host route
    pub fresh : contains (host, path_of spec) (paths b) ≡ false
    pub paths_is : paths b' ≡ (host, path_of spec) ∷ paths b
    pub by_host_is :
        by_host b' ≡ (if enabled spec then put host (path_of spec) route (by_host b) else by_host b)

  -- An entry is enabled, is for this host and path, and yields the route.
  abbrev pub Serves : Text → Text → V → Spec → Type 0
  Serves host path route spec =
      (enabled spec ≡ true) × (path_of spec ≡ path) × Yields spec host route

  module _ (round : (b b' : B) (spec : Spec) → step b spec ≡ ok b' → Placed b b' spec)
      (unique : (spec : Spec) (h h' : Text) (r r' : V)
        → Yields spec h r
        → Yields spec h' r'
        → (h ≡ h') × (r ≡ r')) where
    lookup-step :
        (b b' : B) (spec : Spec) (p : Placed b b' spec) (h q : Text)
        → lookup h q (by_host b') ≡ (
            if enabled spec && (p.host == h) && (path_of spec == q)
            then some p.route
            else lookup h q (by_host b))
    lookup-step b b' spec p h q = elim (Bool-cases (enabled spec)) [
      | inl on ↦
          let placed : by_host b' ≡ put p.host (path_of spec) p.route (by_host b) =
            p.by_host_is ∙ rw on refl in
          rw (placed, on) (lookup-put p.host (path_of spec) h q p.route (by_host b))
      | inr off ↦
          let kept : by_host b' ≡ by_host b = p.by_host_is ∙ rw off refl in rw (kept, off) refl
    ]

    -- Once a host and path is taken, its route stays.
    taken_stays :
        (specs : List Spec) (b b' : B) (h q : Text)
        → add_all step b specs ≡ ok b'
        → contains (h, q) (paths b) ≡ true
        → lookup h q (by_host b') ≡ lookup h q (by_host b)
    unfolding add_all
    taken_stays [] b b' h q e k = ground arith
    taken_stays (spec ∷ specs) b b' h q e k = elim (Result-cases (step b spec)) [
      | inr (x, bad) ↦ absurd (ground arith)
      | inl (c, added) ↦
          let p = round b c spec added in
          ground (
            arith,
            p.paths_is,
            p.fresh,
            taken_stays specs c b' h q,
            lookup-step b c spec p h q,
            ==_iff p.host h,
            ==_iff (path_of spec) q,
          )
    ]

    -- A route of the table is an earlier one, or an entry yields it.
    found-Serves :
        (specs : List Spec) (b b' : B) (h q : Text) (r : V)
        → add_all step b specs ≡ ok b'
        → lookup h q (by_host b') ≡ some r
        → (lookup h q (by_host b) ≡ some r) ⊎ Any (Serves h q r) specs
    unfolding add_all
    found-Serves [] b b' h q r e f = ground arith
    found-Serves (spec ∷ specs) b b' h q r e f = elim (Result-cases (step b spec)) [
      | inr (x, bad) ↦ absurd (ground arith)
      | inl (c, added) ↦
          let p = round b c spec added in
          elim (found-Serves specs c b' h q r (ground arith) f) [
            | inr later ↦ inr (inr later)
            | inl here ↦ elim (Bool-cases (enabled spec && (p.host == h) && (path_of spec == q))) [
              | inr other ↦ inl (ground (arith, lookup-step b c spec p h q))
              | inl hit ↦
                  let host_is : p.host ≡ h = ground (arith, ==_iff p.host h) in
                  let path_is : path_of spec ≡ q = ground (arith, ==_iff (path_of spec) q) in
                  let route_is : p.route ≡ r = ground (arith, lookup-step b c spec p h q) in
                  inr (inl (ground arith, path_is, rw (← host_is, ← route_is) p.yields))
            ]
          ]
    ]

    Serves-found :
        (specs : List Spec) (b b' : B) (h q : Text) (r : V)
        → add_all step b specs ≡ ok b'
        → Any (Serves h q r) specs
        → lookup h q (by_host b') ≡ some r
    unfolding add_all
    Serves-found [] b b' h q r e s = elim s [ ]
    Serves-found (spec ∷ specs) b b' h q r e s = elim (Result-cases (step b spec)) [
      | inr (x, bad) ↦ absurd (ground arith)
      | inl (c, added) ↦ elim s [
        | inr later ↦ Serves-found specs c b' h q r (ground arith) later
        | inl (on, path_is, yields) ↦
            let p = round b c spec added in
            let same = unique spec p.host h p.route r p.yields yields in
            ground (
              arith,
              same,
              p.paths_is,
              on,
              path_is,
              taken_stays specs c b' h q,
              lookup-step b c spec p h q,
              ==_refl h,
              ==_refl q,
            )
      ]
    ]

    nothing_yet : (b : B) (h q : Text) (r : V) → by_host b ≡ [] → lookup h q (by_host b) ≢ some r
    unfolding lookup get
    nothing_yet b h q r e f = cc (rw e at f)

    -- From an empty start, a lookup finds exactly the route that an entry yields.
    pub add_all_iff :
        (specs : List Spec) (b b' : B) (h q : Text) (r : V)
        → by_host b ≡ []
        → add_all step b specs ≡ ok b'
        → (lookup h q (by_host b') ≡ some r) ↔ Any (Serves h q r) specs
    add_all_iff specs b b' h q r empty e = (forth, λ s. Serves-found specs b b' h q r e s)
      where
        forth : lookup h q (by_host b') ≡ some r → Any (Serves h q r) specs
        forth f = elim (found-Serves specs b b' h q r e f) [
          | inl impossible ↦ absurd (nothing_yet b h q r empty impossible)
          | inr served ↦ served
        ]

    -- Every entry of an accepted list yields a route.
    pub all_yield :
        (specs : List Spec) (b b' : B)
        → add_all step b specs ≡ ok b'
        → All (λ spec. (host : Text) × (route : V) × Yields spec host route) specs
    unfolding add_all
    all_yield [] b b' e = tt
    all_yield (spec ∷ specs) b b' e = elim (Result-cases (step b spec)) [
      | inr (x, bad) ↦ absurd (ground arith)
      | inl (c, added) ↦
          let p = round b c spec added in
          ((p.host, p.route, p.yields), all_yield specs c b' (ground arith))
    ]
