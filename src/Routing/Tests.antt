-- ===== src/Routing/Tests.antt =====
-- Runs of the routing code, and its theorems at inputs that meet their hypotheses.
use edge_gateway.Prelude.{
  ◌≡◌, refl, true, false, some, List, [], ◌∷◌, ok, err, ◌↔◌, All, contains, nat_eq, list_eq, map,
}
use edge_gateway.Prelude.Text.{Text, text, is_upper, to_lower, strip_last}
use edge_gateway.Prelude.Text.{text_run}
use edge_gateway.Prelude.Maps
use edge_gateway.Prelude.Maps.{contains_key, insert}
use edge_gateway.Net.Parse.{parse_ip}
use edge_gateway.Http.{is_visible}
use edge_gateway.Http.Listed.{get_all, visible}
use edge_gateway.Routing.{label_refused, check_labels, is_ascii, conflicts}
use edge_gateway.Routing.Policy.{collect_targets, collect_bindings}
use edge_gateway.Http.Listed.{listed}
use edge_gateway.Routing.{
  normalize_dns_host, normalize_authority, resolve_request_host, RequestHead, http_2,
}
use edge_gateway.Routing.Names.{IsDnsName, normalize_dns_host_iff}
use edge_gateway.Routing.Canonical.{normalize_dns_host_canonical}
use edge_gateway.Routing.Hosts.{IsFor, resolve_request_host_iff}
use edge_gateway.Routing.Policy.{RoutingPolicy, build, permits_request_host}
use edge_gateway.Routing.Policy.Laws.{Reaches, permits_request_host_iff}

-- Opens what a run of the routing code calls.
run : Unit {0}
unfolding text_run parse_ip label_refused check_labels is_ascii normalize_dns_host
    normalize_authority conflicts resolve_request_host get_all visible is_visible collect_targets
    collect_bindings build permits_request_host Maps.get contains_key insert
run = tt

normalize_tests :
    (normalize_dns_host (text "Example.COM.") ≡ ok (text "example.com"))
    × (normalize_dns_host (text "10.0.0.1") ≡ err "IP literal routing hosts are not supported")
    × (normalize_dns_host (text "a..b")
        ≡ err "host contains an invalid DNS label; wildcards are not supported")
    × (normalize_authority (text "a.b:8443") ≡ ok (text "a.b", some 8443))
    × (normalize_authority (text "a.b:0") ≡ err "authority port must not be zero")
unfolding run
normalize_tests = (refl, refl, refl, refl, refl)

abbrev request : RequestHead listed
request = record {
  headers = (text "host", text "a.example:443") ∷ [];
  authority = some (text "A.example");
  version = http_2;
}

resolve_test : resolve_request_host listed request ≡ ok (text "a.example")
unfolding run
resolve_test = refl

abbrev hosts : List Text
hosts = text "a.example" ∷ text "b.example" ∷ []

abbrev bindings : List (Text × List Text)
bindings = (text "edge.example", text "A.example" ∷ []) ∷ []

abbrev policy : RoutingPolicy
policy = record {
  hosts = hosts;
  require_sni = true;
  sni_bindings = (text "edge.example", text "a.example" ∷ []) ∷ [];
}

policy_built : build hosts true bindings ≡ ok policy
unfolding run
policy_built = refl

normalize_dns_host_iff_example : (normalize_dns_host (text "A.b.") ≡ ok (text "a.b")) ↔ (
    IsDnsName (strip_last b'.' (text "A.b."))
    × (text "a.b" ≡ map to_lower (strip_last b'.' (text "A.b."))))
normalize_dns_host_iff_example = normalize_dns_host_iff (text "A.b.") (text "a.b")

normalize_dns_host_canonical_example :
    IsDnsName (text "example.com")
    × All (λ b. is_upper b ≡ false) (text "example.com")
    × (normalize_dns_host (text "example.com") ≡ ok (text "example.com"))
normalize_dns_host_canonical_example =
    normalize_dns_host_canonical (text "Example.COM.") (text "example.com") normalize_tests.0

resolve_request_host_iff_example :
    (resolve_request_host listed request ≡ ok (text "a.example"))
    ↔ IsFor listed request (text "a.example")
resolve_request_host_iff_example = resolve_request_host_iff listed request (text "a.example")

permits_request_host_iff_example :
    (permits_request_host policy (text "a.example") (some (text "edge.example")) ≡ true) ↔ (
      (contains (text "a.example") hosts ≡ true)
      × Reaches true bindings (text "a.example") (some (text "edge.example")))
permits_request_host_iff_example =
    permits_request_host_iff hosts true bindings policy (text "a.example")
      (some (text "edge.example")) policy_built
