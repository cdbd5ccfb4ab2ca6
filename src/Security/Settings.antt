-- ===== src/Security/Settings.antt =====
-- src/security/ip_blocking_config.rs: the configuration of the address blocking, and its validation.
pub mod Laws
mod Tests
use edge_gateway.Prelude.{
  ◌≡◌, ℕ, String, Bool, true, false, not, ◌&&◌, ◌||◌, Option, none, some, List, [], ◌∷◌, Result, ok,
  err, ◌>>=◌, ◌>>◌, refuse, guard, map_err, if◌then◌else◌, is_empty, any, all, length, ltb, leb,
  contains, ◌==◌, nat_eq, list_eq, is_some,
}
use edge_gateway.Prelude.Text.{Text, text, starts_with, ends_with_byte}
use edge_gateway.Proxy.Config.{is_absolute, join}
use edge_gateway.Proxy.Path.{validate_http_path}
use edge_gateway.Security.Network.{IpNetwork, parse}
use edge_gateway.Security.Blocking.{BlockingConfig, PerRule}

-- `ViolationThresholds` is one number for each rule.
pub record FileIpBlockingConfig : Type 0 where
  pub enabled : Bool
  pub state_file : Text
  pub allow_cidrs : List Text
  pub scan_namespaces : List Text
  pub max_tracked_client_ips : ℕ
  pub max_blocked_client_ips : ℕ
  pub max_pending_activations : ℕ
  pub persistence_batch_size : ℕ
  pub log_client_ip : Bool
  pub thresholds : PerRule ℕ

-- `FileIpBlockingConfig::default`
abbrev pub default_config : FileIpBlockingConfig
default_config = record {
  enabled = false;
  state_file = text "state/ip-blocklist-v1.json";
  allow_cidrs = [];
  scan_namespaces = [];
  max_tracked_client_ips = 65536;
  max_blocked_client_ips = 50000;
  max_pending_activations = 1024;
  persistence_batch_size = 128;
  log_client_ip = false;
  thresholds = record { of_websocket = 20; of_grpc = 20; of_size = 5; of_scan = 60 };
}

pub record IpBlockingConfig : Type 0 where
  pub file : FileIpBlockingConfig
  pub allow : List IpNetwork

in_range : ℕ → ℕ → ℕ → Bool
in_range low high n = leb low n && leb n high

-- Each CIDR is parsed, in order.
unfoldable pub parse_all : List Text → Result String (List IpNetwork)
parse_all [] = ok []
parse_all (value ∷ values) = do network ← parse value; rest ← parse_all values; ok (network ∷ rest)

-- The loop over the scan namespaces, with the ones seen before.
unfoldable pub check_namespaces : List Text → List Text → Result String (Unit {0})
check_namespaces seen [] = ok tt
check_namespaces seen (path ∷ paths) = do
  validate_http_path path
  refuse
      (path == text "/"
        || ends_with_byte path b'/'
        || ltb 256 (length path)
        || any (λ b. b == b'?') path
        || any (λ b. b == b'#') path
        || starts_with path (text "/health")
        || contains path seen)
      "scan_namespaces require unique non-root segment prefixes excluding /health"
  check_namespaces (path ∷ seen) paths

unfoldable pub check_thresholds : List ℕ → Result String (Unit {0})
unfolding in_range
check_thresholds [] = ok tt
check_thresholds (t ∷ ts) = do
  guard (in_range 1 1000000 t) "thresholds must be 1..1000000"
  check_thresholds ts

-- `file_name` is `Path::file_name` of the standard library.
unfoldable pub validate_blocking :
    (file_name : Text → Option Text) → Text → FileIpBlockingConfig → Result String IpBlockingConfig
unfolding in_range
validate_blocking file_name directory f = do
  refuse (is_empty f.state_file || not (is_some (file_name f.state_file)))
      "state_file requires a file path"
  let state_file = if is_absolute f.state_file then f.state_file else join directory f.state_file
  guard (in_range 64 1000000 f.max_tracked_client_ips) "max_tracked_client_ips must be 64..1000000"
  guard (in_range 1 100000 f.max_blocked_client_ips) "max_blocked_client_ips must be 1..100000"
  refuse
      (not (in_range 1 10000 f.max_pending_activations)
        || ltb f.max_tracked_client_ips f.max_pending_activations)
      "max_pending_activations must be 1..10000 and <= tracked capacity"
  refuse (f.persistence_batch_size == 0 || ltb f.max_pending_activations f.persistence_batch_size)
      "persistence_batch_size must be 1..max_pending_activations"
  refuse (ltb 128 (length f.allow_cidrs) || ltb 128 (length f.scan_namespaces))
      "allow_cidrs and scan_namespaces each limited to 128"
  allow ← parse_all f.allow_cidrs
  check_namespaces [] f.scan_namespaces
  check_thresholds (
      f.thresholds.of_websocket ∷ f.thresholds.of_grpc ∷ f.thresholds.of_size ∷ f.thresholds.of_scan
      ∷ [])
  ok (record { file = record f { state_file = state_file }; allow = allow })

-- What the runtime reads of a validated configuration.
abbrev pub runtime_config : IpBlockingConfig → BlockingConfig
runtime_config c = record {
  enabled = c.file.enabled;
  scan_namespaces = c.file.scan_namespaces;
  max_tracked_client_ips = c.file.max_tracked_client_ips;
  max_blocked_client_ips = c.file.max_blocked_client_ips;
  max_pending_activations = c.file.max_pending_activations;
  persistence_batch_size = c.file.persistence_batch_size;
  thresholds = c.file.thresholds;
  allow = c.allow;
}
