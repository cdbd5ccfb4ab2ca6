-- ===== src/Config/Tests.antt =====
-- Runs of the validation of a file, and its theorems at the file of Config/Sample.
use edge_gateway.Prelude.{
  ℕ, ◌≡◌, ◌≢◌, ◌↔◌, ◌⊎◌, refl, true, false, some, none, Bool, [], ok, err, Result, contains, nat_eq,
  list_eq, pair_eq, bool_eq, option_eq,
}
use edge_gateway.Prelude.Text.{Text, text, text_run}
use edge_gateway.Prelude.Text.Suffix.{strip_suffix, ends_with}
use edge_gateway.Prelude.Text.Order.{text_le, insert_sorted, sort}
use edge_gateway.Prelude.Text.Trim.{trim_run}
use edge_gateway.Prelude.Maps
use edge_gateway.Net.{is_loopback, is_ipv4_mapped}
use edge_gateway.Net.Parse.{parse_ip}
use edge_gateway.Net.Endpoint.{parse_host_ip, trim_end}
use edge_gateway.Http.{is_visible}
use edge_gateway.Http.Listed.{listed, visible}
use edge_gateway.Http.Sample.{sample, parse_parts, port_of}
use edge_gateway.Routing.{normalize_dns_host, label_refused, check_labels, is_ascii}
use edge_gateway.Routing.Policy
use edge_gateway.Routing.Policy.{collect_bindings}
use edge_gateway.Routing.HostPaths.{put, lookup}
use edge_gateway.Routing.HostPaths.Build.{add_all}
use edge_gateway.Proxy.Config.{join, nonzero}
use edge_gateway.Proxy.Path.{
  aliases, check_escape, check_escapes, check_segments, forbidden_byte, validate_http_path,
}
use edge_gateway.Proxy.Routes.Build
use edge_gateway.Grpc
use edge_gateway.Grpc.{validate_grpc_path, is_proto_identifier, is_method_path, parse_endpoint}
use edge_gateway.Backends.{
  namespace_of, validate_public_path, choose_port, parse_loopback_authority, websocket_from_uri,
  tcp_from_uri, parse_backend,
}
use edge_gateway.Backends.Table
use edge_gateway.Security.Network
use edge_gateway.Security.Network.{mask_of}
use edge_gateway.Security.Blocking.{Runtime, load}
use edge_gateway.Security.Settings.{
  IpBlockingConfig, parse_all, check_namespaces, check_thresholds, validate_blocking,
  runtime_config,
}
use edge_gateway.Config.{
  validate_seconds, validate_size, validate_count, validate_path, validate_suffix,
  validate_certificate_id, resolve_config_path,
}
use edge_gateway.Config.Server.{validate_limits}
use edge_gateway.Config.Server.Laws.{InLimits, server_of, validate_limits_iff}
use edge_gateway.Config.Tls.{validate_tls, cert_path, key_path}
use edge_gateway.Config.Tls.Laws.{cert_path-key_path}
use edge_gateway.Config.Acme.{
  check_domain_labels, normalize_domain, add_domains, add_certificates, clean_email, is_bad_email,
  validate_acme,
}
use edge_gateway.Config.Acme.Laws.{IsManageable, validate_acme-IsManageable}
use edge_gateway.Config.Observability.{validate_observability}
use edge_gateway.Config.Fallback.{permits_host}
use edge_gateway.Config.Security.{parse_health, cache_file_of, validate_security}
use edge_gateway.Config.File.{
  check_routes, check_grpc_routes, hosts_of, needs_cloudflare, or_default, build_tables,
  validate_file,
}
use edge_gateway.Config.File.Hosts.{HasSocket, HasGrpc, validate_file-hosts_iff}
use edge_gateway.Proxy.Routes.Build.Hosts.{HasHttp}
use edge_gateway.Config.File.Disjoint.{IsExclusive, build_tables-IsExclusive}
use edge_gateway.Config.Sample.{
  directory, file_name, server, file_tls, tls, file_acme, acme, file, tables, config,
}

-- Opens what a run of the validation calls.
run : Unit {0}
unfolding text_run trim_run strip_suffix ends_with text_le insert_sorted sort parse_ip is_loopback
    is_ipv4_mapped parse_host_ip trim_end is_visible visible parse_parts port_of label_refused
    check_labels is_ascii normalize_dns_host collect_bindings Policy.build put lookup add_all join
    nonzero aliases check_escape check_escapes check_segments forbidden_byte validate_http_path
    Build.add_routes Build.build validate_grpc_path is_proto_identifier is_method_path
    parse_endpoint Grpc.add_route Grpc.build namespace_of validate_public_path choose_port
    parse_loopback_authority websocket_from_uri tcp_from_uri parse_backend Table.add_route
    Table.build mask_of Network.parse parse_all check_namespaces check_thresholds validate_blocking
    load validate_seconds validate_size validate_count validate_path validate_suffix
    validate_certificate_id resolve_config_path validate_limits validate_tls cert_path key_path
    check_domain_labels normalize_domain add_domains add_certificates clean_email is_bad_email
    validate_acme validate_observability parse_health cache_file_of validate_security check_routes
    check_grpc_routes hosts_of needs_cloudflare or_default build_tables validate_file Maps.get
    Maps.insert Maps.contains_key
run = tt

validate_limits_iff_example :
    (validate_limits 2 20000 server ≡ ok (server_of server, 20000))
    ↔ (InLimits 2 20000 server × (server_of server ≡ server_of server) × (◌≡◌ {A = ℕ} 20000 20000))
validate_limits_iff_example = validate_limits_iff 2 20000 server (server_of server) 20000

tls_test : validate_tls directory file_tls ≡ ok tls
unfolding run
tls_test = refl

paths_test : cert_path tls (text "main") ≡ text "/etc/certs/main.fullchain.pem"
unfolding run
paths_test = refl

cert_path-key_path_example : cert_path tls (text "main") ≢ key_path tls (text "main")
cert_path-key_path_example =
    cert_path-key_path directory file_tls tls (text "main") (text "main") tls_test

acme_test : validate_acme directory file_acme ≡ ok acme
unfolding run
acme_test = refl

domain_tests :
    (normalize_domain (text "API.Example.COM.") ≡ ok (text "api.example.com"))
    × (normalize_domain (text "*.example.com")
        ≡ err "wildcard domains require DNS-01 and are not supported by built-in HTTP-01")
    × (normalize_domain (text "192.0.2.10")
        ≡ err "IP identifiers are not supported by built-in ACME")
unfolding run
domain_tests = (refl, refl, refl)

validate_acme-IsManageable_example : IsManageable acme
validate_acme-IsManageable_example = validate_acme-IsManageable directory file_acme acme acme_test

tables_test : build_tables sample listed directory none file ≡ ok tables
unfolding run
tables_test = refl

abbrev load_blocking : IpBlockingConfig → Result Text Runtime
load_blocking c = ok (load (runtime_config c) [])

file_test :
    validate_file sample listed file_name load_blocking (λ path. ok []) directory file ≡ ok config
unfolding run
file_test = refl

validate_file-hosts_iff_example : (contains (text "a.example") config.routing.hosts ≡ true) ↔ (
    HasSocket sample listed config.routes (text "a.example")
    ⊎ HasGrpc sample listed config.grpc_routes (text "a.example")
    ⊎ HasHttp config.http_routes (text "a.example")
    ⊎ (elim config.fallback as (λ _. Bool) [
      | none ↦ false
      | some b ↦ permits_host b (text "a.example")
    ]
        ≡ true))
validate_file-hosts_iff_example =
    validate_file-hosts_iff sample listed file_name load_blocking (λ path. ok []) directory file
      config (text "a.example") file_test

build_tables-IsExclusive_example :
    IsExclusive sample listed (text "a.example") (text "/api/pc/socket") tables
build_tables-IsExclusive_example =
    build_tables-IsExclusive sample listed directory none file tables (text "a.example")
      (text "/api/pc/socket") tables_test
