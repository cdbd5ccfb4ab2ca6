-- ===== src/Routing/Policy.antt =====
-- src/routing/mod.rs, part two: `RoutingPolicy`, which hosts a TLS server name may reach.
pub mod Laws
use edge_gateway.Prelude.{
  String, Bool, false, not, Option, none, some, List, [], ◌∷◌, Result, ok, err, ◌>>=◌, ◌>>◌, refuse,
  map_err, if◌then◌else◌, is_empty, contains, ◌==◌, nat_eq, list_eq,
}
use edge_gateway.Prelude.Text.{Text}
use edge_gateway.Prelude.Maps.{Map, get, contains_key, insert}
use edge_gateway.Routing.{normalize_dns_host}

pub record RoutingPolicy : Type 0 where
  pub hosts : List Text
  pub require_sni : Bool
  pub sni_bindings : Map Text (List Text)

-- The formatted messages of `RoutingPolicy::build`.
pub data PolicyError : Type 0 where
  invalid_name : String → PolicyError
  no_allowed_hosts : Text → PolicyError
  unconfigured_host : Text → Text → PolicyError
  duplicate_host : Text → Text → PolicyError
  duplicate_sni : Text → PolicyError

unfoldable pub collect_targets :
    List Text → Text → List Text → List Text → Result PolicyError (List Text)
collect_targets hosts sni allowed [] = ok allowed
collect_targets hosts sni allowed (target ∷ targets) = do
  name ← map_err invalid_name (normalize_dns_host target)
  refuse (not (contains name hosts)) (unconfigured_host sni name)
  refuse (contains name allowed) (duplicate_host name sni)
  collect_targets hosts sni (name ∷ allowed) targets

unfoldable pub collect_bindings :
    List Text
    → Map Text (List Text)
    → List (Text × List Text)
    → Result PolicyError (Map Text (List Text))
collect_bindings hosts bound [] = ok bound
collect_bindings hosts bound ((raw, targets) ∷ bindings) = do
  sni ← map_err invalid_name (normalize_dns_host raw)
  refuse (is_empty targets) (no_allowed_hosts sni)
  allowed ← collect_targets hosts sni [] targets
  refuse (contains_key sni bound) (duplicate_sni sni)
  collect_bindings hosts (insert sni allowed bound) bindings

unfoldable pub build : List Text → Bool → List (Text × List Text) → Result PolicyError RoutingPolicy
build hosts require_sni bindings = do
  bound ← collect_bindings hosts [] bindings
  ok (record { hosts = hosts; require_sni = require_sni; sni_bindings = bound })

permits_sni : RoutingPolicy → Text → Text → Bool
permits_sni policy host raw = elim (normalize_dns_host raw) [
  | err _ ↦ false
  | ok sni ↦ elim (get sni policy.sni_bindings) [
    | some allowed ↦ contains host allowed
    | none ↦ sni == host
  ]
]

unfoldable pub permits_request_host : RoutingPolicy → Text → Option Text → Bool
unfolding permits_sni
permits_request_host policy host sni =
    if not (contains host policy.hosts)
    then false
    else elim sni [ none ↦ not policy.require_sni | some raw ↦ permits_sni policy host raw ]
