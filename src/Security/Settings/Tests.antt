-- ===== src/Security/Settings/Tests.antt =====
-- Runs of the validation, and its theorem at a configuration that it accepts.
use edge_gateway.Prelude.{◌≡◌, refl, some, Option, ok, err, [], ◌∷◌, nat_eq, list_eq, true}
use edge_gateway.Prelude.Text.{Text, text, text_run}
use edge_gateway.Net.Parse.{parse_ip}
use edge_gateway.Net.{is_ipv4_mapped}
use edge_gateway.Proxy.Config.{join}
use edge_gateway.Proxy.Path.{
  aliases, check_escape, check_escapes, check_segments, forbidden_byte, validate_http_path,
}
use edge_gateway.Security.Network
use edge_gateway.Security.Network.{mask_of}
use edge_gateway.Security.Settings.{
  FileIpBlockingConfig, IpBlockingConfig, default_config, parse_all, check_namespaces,
  check_thresholds, validate_blocking, runtime_config,
}
use edge_gateway.Security.Settings.Laws.{IsWorkable, validate-IsWorkable}

-- Opens what a run of the validation calls.
run : Unit {0}
unfolding text_run parse_ip is_ipv4_mapped join aliases check_escape check_escapes check_segments
    forbidden_byte validate_http_path mask_of Network.parse parse_all check_namespaces
    check_thresholds validate_blocking
run = tt

abbrev file_name : Text → Option Text
file_name path = some path

abbrev config : FileIpBlockingConfig
config = record default_config { enabled = true; scan_namespaces = text "/wp-admin" ∷ [] }

abbrev accepted : IpBlockingConfig
accepted = record {
  file = record config { state_file = text "/etc/state/ip-blocklist-v1.json" };
  allow = [];
}

config_accepted : validate_blocking file_name (text "/etc") config ≡ ok accepted
unfolding run
config_accepted = refl

refused_test :
    validate_blocking file_name
      (text "/etc")
      (record config { scan_namespaces = text "/healthz" ∷ [] })
    ≡ err "scan_namespaces require unique non-root segment prefixes excluding /health"
unfolding run
refused_test = refl

validate-IsWorkable_example : IsWorkable (runtime_config accepted)
validate-IsWorkable_example =
    validate-IsWorkable file_name (text "/etc") config accepted config_accepted
