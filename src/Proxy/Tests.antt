-- ===== src/Proxy/Tests.antt =====
-- Runs of the proxy's configuration code, and its theorems at inputs that meet their hypotheses.
use edge_gateway.Prelude.{
  ◌≡◌, ◌↔◌, refl, true, false, some, none, List, [], ◌∷◌, ok, err, nat_eq, list_eq, bool_eq,
  pair_eq, Option, arith,
}
use edge_gateway.Prelude.Text.{Text, text, text_run}
use edge_gateway.Prelude.Maps
use edge_gateway.Prelude.Maps.{Map}
use edge_gateway.Net.{v4, is_loopback}
use edge_gateway.Net.Parse.{parse_ip}
use edge_gateway.Net.Endpoint.{parse_host_ip}
use edge_gateway.Http.Sample.{sample, parse_parts, port_of}
use edge_gateway.Routing.{normalize_dns_host, label_refused, check_labels, is_ascii}
use edge_gateway.Proxy.Config.{
  FileUpstreamConfig, UpstreamConfig, default_pool, TlsServerName, request_host, HostHeaderPolicy,
  http1, validate, validate_pool, join,
}
use edge_gateway.Proxy.Config
use edge_gateway.Proxy.Config.Laws.{IsUsable, validate-IsUsable}
use edge_gateway.Proxy.Path.{
  aliases, check_escape, check_escapes, check_segments, forbidden_byte, validate_http_path,
}
use edge_gateway.Proxy.Routes.{
  PathMatch, prefix, Rewrite, preserve, replace_prefix, FileHttpRouteConfig, HttpRoute,
  HttpRouteTable, rfind, resolve_prefix, resolve, rewrite_target,
}
use edge_gateway.Proxy.Routes.Resolution.{Longest, resolve_prefix_iff}
use edge_gateway.Proxy.Routes.Build.{route_for, place, build, RouteTableError, message}
use edge_gateway.Proxy.Routes.Build.Serving.{Serves, resolve-build_iff}

-- Opens what a run of the proxy's code calls.
run : Unit {0}
unfolding text_run parse_ip label_refused check_labels is_ascii normalize_dns_host is_loopback
    parse_host_ip parse_parts port_of validate validate_pool aliases check_escape check_escapes
    check_segments forbidden_byte validate_http_path rfind resolve_prefix resolve rewrite_target
    place build Maps.get Maps.insert
run = tt

abbrev file_upstream : FileUpstreamConfig
file_upstream = record {
  endpoint = text "http://127.0.0.1:8080";
  protocol = http1;
  host_header = Config.preserve;
  tls_server_name = text "request_host";
  ca_file = none;
  pool = default_pool;
}

abbrev upstream : UpstreamConfig
upstream = record {
  endpoint = text "http://127.0.0.1:8080";
  address = record { ip = v4 2130706433; port = 8080 };
  authority = text "127.0.0.1:8080";
  tls = false;
  protocol = http1;
  host_header = Config.preserve;
  tls_server_name = request_host;
  ca_file = none;
  pool = record {
    max_connections = 128;
    max_idle_connections = 16;
    max_active_requests = 256;
    max_pending_requests = 64;
    idle_timeout = 60;
    pending_timeout = 5;
    response_header_timeout = 60;
    body_idle_timeout = 60;
  };
}

validate_test : validate sample (text "/etc") file_upstream ≡ ok upstream
unfolding run
validate_test = refl

path_tests :
    (validate_http_path (text "/a/b%20c") ≡ ok tt)
    × (validate_http_path (text "/a/../b") ≡ err "dot segments are not supported")
    × (validate_http_path (text "/a//b") ≡ err "repeated path separators are not supported")
    × (validate_http_path (text "/a%2") ≡ err "invalid percent encoding")
    × (validate_http_path (text "/%41")
        ≡ err "encoded path separators/unreserved/control/double encoding are not supported")
unfolding run
path_tests = (refl, refl, refl, refl, refl)

abbrev entry : Text → Text → PathMatch → Rewrite → Option Text → FileHttpRouteConfig
entry id path path_match rewrite replacement = record {
  id = id;
  host = text "a.example";
  path = path;
  path_match = path_match;
  rewrite = rewrite;
  replacement_prefix = replacement;
  enabled = true;
  security = record { cloudflare_only = false };
  upstream = file_upstream;
}

abbrev api : FileHttpRouteConfig
api = entry (text "api") (text "/api") prefix replace_prefix (some (text "/v1"))

abbrev entries : List FileHttpRouteConfig
entries = api ∷ entry (text "root") (text "/") prefix preserve none ∷ []

abbrev api_route : HttpRoute
api_route = route_for api (text "a.example") upstream

abbrev root_route : HttpRoute
root_route =
    route_for (entry (text "root") (text "/") prefix preserve none) (text "a.example") upstream

abbrev table : HttpRouteTable
table = record {
  by_host =
      (
        text "a.example",
        record { exact = []; prefixes = (text "/api", api_route) ∷ (text "/", root_route) ∷ [] },
      )
      ∷ [];
  configured_count = 2;
  enabled_count = 2;
}

table_built : build sample (text "/etc") [] entries ≡ ok table
unfolding run
table_built = refl

build_tests :
    (build sample (text "/etc") [] (api ∷ api ∷ [])
      ≡ err (RouteTableError.duplicate_id (text "api")))
    × (build sample (text "/etc") [] (entry (text "x") (text "/x/") prefix preserve none ∷ [])
        ≡ err (message "segment prefixes must not end in slash (except /)"))
unfolding run
build_tests = (refl, refl)

resolve_tests :
    (resolve table (text "a.example") (text "/api/users") ≡ some api_route)
    × (resolve table (text "a.example") (text "/apis") ≡ some root_route)
    × (resolve table (text "b.example") (text "/api") ≡ none)
unfolding run
resolve_tests = (refl, refl, refl)

validate-IsUsable_example : IsUsable file_upstream upstream
validate-IsUsable_example =
    validate-IsUsable sample (text "/etc") file_upstream upstream validate_test

abbrev prefixes : Map Text HttpRoute
prefixes = (text "/api", api_route) ∷ []

resolve_prefix_iff_example :
    (resolve_prefix 20 prefixes (text "/api/users") ≡ some api_route)
    ↔ Longest prefixes (text "/api/users") api_route
resolve_prefix_iff_example =
    resolve_prefix_iff 20 prefixes (text "/api/users") api_route (omega arith)

resolve-build_iff_example :
    (resolve table (text "a.example") (text "/api/users") ≡ some api_route)
    ↔ Serves sample (text "/etc") [] entries (text "a.example") (text "/api/users") api_route
resolve-build_iff_example =
    resolve-build_iff sample (text "/etc") [] entries table (text "a.example") (text "/api/users")
      api_route table_built
