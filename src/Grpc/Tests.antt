-- ===== src/Grpc/Tests.antt =====
-- Runs of the gRPC table, and its theorems at inputs that meet their hypotheses.
use edge_gateway.Prelude.{
  ◌≡◌, ◌↔◌, refl, true, some, none, List, [], ◌∷◌, ok, err, Any, nat_eq, list_eq, option_eq,
  pair_eq,
}
use edge_gateway.Prelude.Text.{Text, text, text_run}
use edge_gateway.Prelude.Maps
use edge_gateway.Net.{v4, is_loopback}
use edge_gateway.Net.Parse.{parse_ip}
use edge_gateway.Net.Endpoint.{IsLocal, parse_host_ip}
use edge_gateway.Http.{is_visible}
use edge_gateway.Http.Listed.{listed, visible}
use edge_gateway.Http.Sample.{sample, parse_parts, port_of}
use edge_gateway.Routing.{normalize_dns_host, label_refused, check_labels, is_ascii}
use edge_gateway.Routing.HostPaths.{lookup, put}
use edge_gateway.Routing.HostPaths.Build.{add_all}
use edge_gateway.Proxy.Config.{nonzero}
use edge_gateway.Grpc.{
  GrpcRouteSpec, GrpcRoute, GrpcRouteTable, GrpcBackendEndpoint, validate_grpc_path,
  is_proto_identifier, is_method_path, parse_endpoint, route_for, add_route, build, resolve,
  duplicate_host_path, invalid_path, false,
}
use edge_gateway.Grpc.Laws.{IsServed, resolve_built_iff, parse_endpoint-IsLocal}

-- Opens what a run of the table's code calls.
run : Unit {0}
unfolding text_run parse_ip label_refused check_labels is_ascii normalize_dns_host is_loopback
    parse_host_ip is_visible visible parse_parts port_of nonzero validate_grpc_path
    is_proto_identifier is_method_path parse_endpoint add_route add_all build resolve lookup put
    Maps.get Maps.insert
run = tt

abbrev spec : Text → Text → GrpcRouteSpec
spec id path = record {
  id = id;
  host = text "A.example";
  path = path;
  backend = text "h2c://127.0.0.1:50051";
  enabled = true;
  security = record { cloudflare_only = false };
}

abbrev backend : GrpcBackendEndpoint listed
backend = record {
  display = text "h2c://127.0.0.1:50051";
  address = record { ip = v4 2130706433; port = 50051 };
  authority = text "127.0.0.1:50051";
  host_header = text "127.0.0.1:50051";
}

abbrev specs : List GrpcRouteSpec
specs = spec (text "greet") (text "/greet.Greeter/Hello") ∷ []

abbrev route : GrpcRoute sample listed
route =
    route_for sample listed (spec (text "greet") (text "/greet.Greeter/Hello")) (text "a.example")
      backend
      (record {
        scheme = some (text "http");
        authority = some (text "127.0.0.1:50051");
        host = some (text "127.0.0.1");
        port = some 50051;
        path = text "/greet.Greeter/Hello";
        query = none;
      })

abbrev table : GrpcRouteTable sample listed
table = record {
  enabled_by_host = (text "a.example", (text "/greet.Greeter/Hello", route) ∷ []) ∷ [];
  enabled_count = 1;
  configured_count = 1;
}

endpoint_test : parse_endpoint sample listed (text "h2c://127.0.0.1:50051") ≡ ok backend
unfolding run
endpoint_test = refl

table_built : build sample listed specs ≡ ok table
unfolding run
table_built = refl

refused_tests :
    (build sample listed (spec (text "a") (text "/p.S/M") ∷ spec (text "b") (text "/p.S/M") ∷ [])
      ≡ err (duplicate_host_path (text "a.example") (text "/p.S/M")))
    × (validate_grpc_path (text "/p.S/M/x") ≡ err (invalid_path (text "/p.S/M/x")))
unfolding run
refused_tests = (refl, refl)

resolve_built_iff_example :
    (resolve sample listed table (text "a.example") (text "/greet.Greeter/Hello") ≡ some route)
    ↔ Any (IsServed sample listed (text "a.example") (text "/greet.Greeter/Hello") route) specs
resolve_built_iff_example =
    resolve_built_iff sample listed specs table (text "a.example") (text "/greet.Greeter/Hello")
      route table_built

parse_endpoint-IsLocal_example :
    IsLocal backend.address × (backend.display ≡ text "h2c://127.0.0.1:50051")
parse_endpoint-IsLocal_example =
    parse_endpoint-IsLocal sample listed (text "h2c://127.0.0.1:50051") backend endpoint_test
