-- ===== src/Backends/Tests.antt =====
-- Runs of the backend parser, and its theorem at a backend that it accepts.
use edge_gateway.Prelude.{◌≡◌, refl, ok, err, nat_eq, list_eq}
use edge_gateway.Prelude.Text.{text, text_run}
use edge_gateway.Net.{v4, is_loopback}
use edge_gateway.Net.Parse.{parse_ip}
use edge_gateway.Net.Endpoint.{IsLocal, parse_host_ip}
use edge_gateway.Http.{is_visible}
use edge_gateway.Http.Listed.{listed, visible}
use edge_gateway.Http.Sample.{sample, parse_parts, port_of}
use edge_gateway.Backends.{
  BackendEndpoint, tcp, pc, invalid_path, namespace_of, validate_public_path, choose_port,
  parse_loopback_authority, websocket_from_uri, tcp_from_uri, parse_backend, address_of, false,
}
use edge_gateway.Backends.Laws.{parse_backend-IsLocal}
use edge_gateway.Prelude.{◌↔◌, Any, true, some, [], ◌∷◌, pair_eq}
use edge_gateway.Prelude.Maps
use edge_gateway.Routing.{normalize_dns_host, label_refused, check_labels, is_ascii}
use edge_gateway.Routing.HostPaths.{put}
use edge_gateway.Routing.HostPaths.Build.{add_all}
use edge_gateway.Backends.Table.{
  RouteSpec, Route, RouteTable, default_handshake, route_for, add_route, build, resolve,
}
use edge_gateway.Backends.Table.Laws.{IsServed, resolve_table_iff}

-- Opens what a run of the parser calls.
run : Unit {0}
unfolding text_run parse_ip is_loopback parse_host_ip is_visible visible parse_parts port_of
    namespace_of validate_public_path choose_port parse_loopback_authority websocket_from_uri
    tcp_from_uri parse_backend label_refused check_labels is_ascii normalize_dns_host put add_all
    add_route build Maps.get Maps.insert
run = tt

path_tests :
    (validate_public_path (text "/api/pc/socket") ≡ ok pc)
    × (validate_public_path (text "/a/../b") ≡ err (invalid_path (text "/a/../b")))
unfolding run
path_tests = (refl, refl)

abbrev backend : BackendEndpoint sample listed
backend = tcp (record {
  display = text "tcp://127.0.0.1:33301";
  address = record { ip = v4 2130706433; port = 33301 };
})

backend_test : parse_backend sample listed (text "tcp://127.0.0.1:33301") ≡ ok backend
unfolding run
backend_test = refl

parse_backend-IsLocal_example : IsLocal (address_of sample listed backend)
parse_backend-IsLocal_example =
    parse_backend-IsLocal sample listed (text "tcp://127.0.0.1:33301") backend backend_test

abbrev spec : RouteSpec
spec = record {
  id = text "socket";
  host = text "A.example";
  path = text "/api/pc/socket";
  backend = text "tcp://127.0.0.1:33301";
  enabled = true;
  security = record { cloudflare_only = false };
  handshake = default_handshake;
}

abbrev route : Route sample listed
route = route_for sample listed spec (text "a.example") pc backend

abbrev table : RouteTable sample listed
table = record {
  enabled_by_host = (text "a.example", (text "/api/pc/socket", route) ∷ []) ∷ [];
  enabled_count = 1;
  configured_count = 1;
}

table_built : build sample listed (spec ∷ []) ≡ ok table
unfolding run
table_built = refl

resolve_table_iff_example :
    (resolve sample listed table (text "a.example") (text "/api/pc/socket") ≡ some route)
    ↔ Any (IsServed sample listed (text "a.example") (text "/api/pc/socket") route) (spec ∷ [])
resolve_table_iff_example =
    resolve_table_iff sample listed (spec ∷ []) table (text "a.example") (text "/api/pc/socket")
      route table_built
