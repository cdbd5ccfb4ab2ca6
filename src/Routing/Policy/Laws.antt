-- ===== src/Routing/Policy/Laws.antt =====
-- src/routing/mod.rs: what a built `RoutingPolicy` permits, in terms of the configuration.
use edge_gateway.Prelude.{
  ◌≡◌, true, false, none, some, List, [], ◌∷◌, arith, ok, ◌↔◌, ◌⊎◌, inl, inr, Bool, ==_iff, nat_eq,
  list_eq, contains, Any, Option, Option-cases, Result-cases, ◌==◌,
}
use edge_gateway.Prelude.Text.{Text}
use edge_gateway.Prelude.Maps.{Map, get, contains_key, insert, get-insert}
use edge_gateway.Routing.{normalize_dns_host}
use edge_gateway.Routing.Policy.{
  RoutingPolicy, collect_targets, collect_bindings, build, permits_request_host,
}

-- Some name of the list normalizes to `host`.
abbrev pub Names : Text → List Text → Type 0
Names host = Any (λ t. normalize_dns_host t ≡ ok host)

-- The configuration binds the server name `sni`; and it binds it to `host`.
abbrev pub BindsSni : Text → List (Text × List Text) → Type 0
BindsSni sni = Any (λ b. normalize_dns_host b.0 ≡ ok sni)

abbrev pub Binds : Text → Text → List (Text × List Text) → Type 0
Binds sni host = Any (λ b. (normalize_dns_host b.0 ≡ ok sni) × Names host b.1)

abbrev bound_to : Text → Text → Map Text (List Text) → Bool
bound_to sni host m = elim (get sni m) [ none ↦ false | some allowed ↦ contains host allowed ]

collect_targets_sound :
    (hosts : List Text) (sni : Text) (allowed targets result : List Text) (host : Text)
    → collect_targets hosts sni allowed targets ≡ ok result
    → (contains host result ≡ true) ↔ ((contains host allowed ≡ true) ⊎ Names host targets)
unfolding collect_targets
collect_targets_sound hosts sni allowed [] result host h = ground arith
collect_targets_sound hosts sni allowed (t ∷ ts) result host h =
    elim (Result-cases (normalize_dns_host t)) [
      | inr (e, refused) ↦ absurd (ground arith)
      | inl (name, named) ↦
          ground (
            arith,
            collect_targets_sound hosts sni (name ∷ allowed) ts result host,
            ==_iff name host,
          )
    ]

collect_bindings_sound :
    (hosts : List Text) (m result : Map Text (List Text)) (bindings : List (Text × List Text))
    (sni host : Text)
    → collect_bindings hosts m bindings ≡ ok result
    → ((bound_to sni host result ≡ true) ↔ ((bound_to sni host m ≡ true) ⊎ Binds sni host bindings))
      × ((contains_key sni result ≡ true) ↔ ((contains_key sni m ≡ true) ⊎ BindsSni sni bindings))
unfolding collect_bindings contains_key
collect_bindings_sound hosts m result [] sni host h = ground arith
collect_bindings_sound hosts m result ((raw, targets) ∷ rest) sni host h =
    elim (Result-cases (normalize_dns_host raw)) [
      | inr (e, refused) ↦ absurd (ground arith)
      | inl (name, named) ↦ elim (Result-cases (collect_targets hosts name [] targets)) [
        | inr (e, refused) ↦ absurd (ground arith)
        | inl (allowed, collected) ↦ ground (
          arith,
          collect_bindings_sound hosts (insert name allowed m) result rest sni host,
          collect_targets_sound hosts name [] targets allowed host collected,
          get-insert name sni allowed m,
          ==_iff name sni,
        )
      ]
    ]

-- What the configuration lets a connection with this server name reach.
abbrev pub Reaches : Bool → List (Text × List Text) → Text → Option Text → Type 0
Reaches require_sni bindings host none = require_sni ≡ false
Reaches require_sni bindings host (some raw) =
    (sni : Text) × (normalize_dns_host raw ≡ ok sni)
    × (Binds sni host bindings ⊎ ((¬ BindsSni sni bindings) × (sni ≡ host)))

-- The choice that `permits_request_host` makes for a server name in canonical form.
choice_iff :
    (hosts : List Text) (bound : Map Text (List Text)) (bindings : List (Text × List Text))
    (name host : Text)
    → collect_bindings hosts [] bindings ≡ ok bound
    → (elim (get name bound) [ some allowed ↦ contains host allowed | none ↦ name == host ] ≡ true)
      ↔ (Binds name host bindings ⊎ ((¬ BindsSni name bindings) × (name ≡ host)))
unfolding contains_key get
choice_iff hosts bound bindings name host collected =
    let facts = collect_bindings_sound hosts [] bound bindings name host collected in
    elim (Option-cases (get name bound)) [
      | inl free ↦ (
        λ h.
            inr (λ b. absurd (ground (arith, facts.1.1 (inr b))), ground (arith, ==_iff name host)),
        λ h. elim h [
          | inl b ↦ absurd (ground (arith, facts.0.1 (inr b)))
          | inr (n, e) ↦ ground (arith, ==_iff name host)
        ],
      )
      | inr (allowed, taken) ↦ (
        λ h. inl (ground (arith, facts.0.0)),
        λ h. elim h [
          | inl b ↦ ground (arith, facts.0.1 (inr b))
          | inr (n, e) ↦ absurd (n (ground (arith, facts.1.0)))
        ],
      )
    ]

-- A built policy permits a host exactly when it is configured and the configuration lets the
-- connection's server name reach it: by a binding of that name to the host, or, where the name is
-- bound to nothing, by being the host; without a server name, unless one is required.
pub permits_request_host_iff :
    (hosts : List Text) (require_sni : Bool) (bindings : List (Text × List Text))
    (policy : RoutingPolicy) (host : Text) (sni : Option Text)
    → build hosts require_sni bindings ≡ ok policy
    → (permits_request_host policy host sni ≡ true)
      ↔ ((contains host hosts ≡ true) × Reaches require_sni bindings host sni)
unfolding build permits_request_host
permits_request_host_iff hosts require_sni bindings policy host none h =
    elim (Result-cases (collect_bindings hosts [] bindings)) [
      | inr (e, refused) ↦ absurd (ground arith)
      | inl (bound, collected) ↦ ground arith
    ]
permits_request_host_iff hosts require_sni bindings policy host (some raw) h =
    elim (Result-cases (collect_bindings hosts [] bindings)) [
      | inr (e, refused) ↦ absurd (ground arith)
      | inl (bound, collected) ↦ elim (Result-cases (normalize_dns_host raw)) [
        | inr (e, unnamed) ↦ (λ k. absurd (ground arith), λ (k, (sni, n, r)). absurd (ground arith))
        | inl (name, named) ↦
            let chosen = choice_iff hosts bound bindings name host collected in
            (
              λ k. (ground arith, (name, named, chosen.0 (ground arith))),
              λ (k, (sni, n, r)).
                  let same : name ≡ sni = ground arith in
                  let permitted = chosen.1 (rw same r) in ground arith,
            )
      ]
    ]
