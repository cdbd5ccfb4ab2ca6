-- ===== src/Config/Sample.antt =====
-- A small file of every section, with what its validation makes of it.
use edge_gateway.Prelude.{true, false, some, none, [], ◌∷◌, Option}
use edge_gateway.Prelude.Text.{Text, text}
use edge_gateway.Net.{v4}
use edge_gateway.Http.Listed.{listed}
use edge_gateway.Http.Sample.{sample}
use edge_gateway.Grpc
use edge_gateway.Grpc.{GrpcRoute, GrpcRouteTable, GrpcBackendEndpoint}
use edge_gateway.Backends.{BackendEndpoint, tcp, pc}
use edge_gateway.Backends.Table
use edge_gateway.Backends.Table.{Route, RouteTable, default_handshake}
use edge_gateway.Security.Network.{v4_network, v6_network}
use edge_gateway.Security.Blocking.{load}
use edge_gateway.Security.Settings.{default_config, runtime_config, IpBlockingConfig}
use edge_gateway.Config.Server.{FileServerConfig, default_server}
use edge_gateway.Config.Server.Laws.{server_of}
use edge_gateway.Config.Tls.{TlsConfig, FileTlsConfig, default_cert_suffix, default_key_suffix}
use edge_gateway.Config.Acme.{AcmeConfig, FileAcmeConfig, production, default_http01_listen}
use edge_gateway.Config.Observability.{switched_off}
use edge_gateway.Config.Security.{default_security}
use edge_gateway.Config.File.{
  FileRouteConfig, FileGrpcRouteConfig, FileConfig, Config, Tables, spec_of, grpc_spec_of,
}

abbrev pub directory : Text
directory = text "/etc"

abbrev pub file_name : Text → Option Text
file_name path = some path

abbrev pub server : FileServerConfig
server = default_server (record { ip = v4 0; port = 443 })

abbrev pub file_tls : FileTlsConfig
file_tls = record {
  cert_dir = text "certs";
  cert_suffix = default_cert_suffix;
  key_suffix = default_key_suffix;
  default_certificate = some (text "main");
}

abbrev pub tls : TlsConfig
tls = record {
  cert_dir = text "/etc/certs";
  cert_suffix = default_cert_suffix;
  key_suffix = default_key_suffix;
  default_certificate = some (text "main");
}

abbrev pub file_acme : FileAcmeConfig
file_acme = record {
  enabled = true;
  http01_listen = default_http01_listen;
  email = some (text " a@b.c ");
  environment = production;
  state_dir = text "acme";
  fallback_renew_before_days = 30;
  check_interval_hours = 12;
  certificates =
      record { id = text "main"; domains = text "B.example." ∷ text " a.example" ∷ [] } ∷ [];
}

abbrev pub acme : AcmeConfig
acme = record {
  enabled = true;
  http01_listen = default_http01_listen;
  email = some (text "a@b.c");
  environment = production;
  state_dir = text "/etc/acme";
  fallback_renew_before = 2592000;
  check_interval = 43200;
  certificates =
      record { id = text "main"; domains = text "a.example" ∷ text "b.example" ∷ [] } ∷ [];
}

abbrev pub socket_route : FileRouteConfig
socket_route = record {
  security = record { cloudflare_only = false };
  handshake = default_handshake;
  id = text "socket";
  host = text "A.example";
  path = text "/api/pc/socket";
  backend = text "tcp://127.0.0.1:33301";
  enabled = true;
}

abbrev pub hello_route : FileGrpcRouteConfig
hello_route = record {
  security = record { cloudflare_only = false };
  id = text "greet";
  host = text "b.example";
  path = text "/greet.Greeter/Hello";
  backend = text "h2c://127.0.0.1:50051";
  enabled = true;
}

abbrev pub file : FileConfig
file = record {
  security = default_security;
  max_upstream = 20000;
  routing = record { require_sni = true; sni_bindings = [] };
  server = server;
  tls = file_tls;
  acme = some file_acme;
  observability = none;
  fallback = none;
  routes = socket_route ∷ [];
  grpc_routes = hello_route ∷ [];
  http_routes = [];
}

abbrev backend : BackendEndpoint sample listed
backend = tcp (record {
  display = text "tcp://127.0.0.1:33301";
  address = record { ip = v4 2130706433; port = 33301 };
})

abbrev grpc_backend : GrpcBackendEndpoint listed
grpc_backend = record {
  display = text "h2c://127.0.0.1:50051";
  address = record { ip = v4 2130706433; port = 50051 };
  authority = text "127.0.0.1:50051";
  host_header = text "127.0.0.1:50051";
}

abbrev pub socket : Route sample listed
socket = Table.route_for sample listed (spec_of socket_route) (text "a.example") pc backend

abbrev pub hello : GrpcRoute sample listed
hello =
    Grpc.route_for sample listed (grpc_spec_of hello_route) (text "b.example") grpc_backend
      (record {
        scheme = some (text "http");
        authority = some (text "127.0.0.1:50051");
        host = some (text "127.0.0.1");
        port = some 50051;
        path = text "/greet.Greeter/Hello";
        query = none;
      })

abbrev pub tables : Tables sample listed
tables = record {
  routes = record {
    enabled_by_host = (text "a.example", (text "/api/pc/socket", socket) ∷ []) ∷ [];
    enabled_count = 1;
    configured_count = 1;
  };
  grpc_routes = record {
    enabled_by_host = (text "b.example", (text "/greet.Greeter/Hello", hello) ∷ []) ∷ [];
    enabled_count = 1;
    configured_count = 1;
  };
  http_routes = record { by_host = []; configured_count = 0; enabled_count = 0 };
  routing = record {
    hosts = text "b.example" ∷ text "a.example" ∷ [];
    require_sni = true;
    sni_bindings = [];
  };
}

abbrev pub blocking : IpBlockingConfig
blocking = record {
  file = record default_config { state_file = text "/etc/state/ip-blocklist-v1.json" };
  allow = [];
}

abbrev pub config : Config sample listed
config = record {
  server = server_of server;
  routing = tables.routing;
  client_address = record {
    cloudflare = [];
    health_peer_networks =
        v4_network 2130706432 4278190080
        ∷ v6_network 1 340282366920938463463374607431768211455
        ∷ [];
  };
  ip_blocking = load (runtime_config blocking) [];
  tls = tls;
  acme = acme;
  observability = switched_off;
  fallback = none;
  routes = tables.routes;
  grpc_routes = tables.grpc_routes;
  http_routes = tables.http_routes;
  max_http_upstream_connections = 20000;
}
