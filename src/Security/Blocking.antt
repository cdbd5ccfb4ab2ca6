-- ===== src/Security/Blocking.antt =====
-- src/security/ip_blocking.rs: the state of `IpBlockingRuntime`, and its reads. Instants are
-- nanoseconds of a monotonic clock. The shared maps and counters are fields of one record, a call is
-- a function of it, and the instants and the outcomes of taking a lock are arguments.
pub mod Violation
pub mod Invariant
pub mod Commit
pub mod Constant
pub mod Bounds
pub mod Escalation
pub mod Threshold
pub mod Isolation
pub mod Snapshot
pub mod Reach
pub mod Capacity
pub mod Persist
pub mod Manager
use edge_gateway.Prelude.{
  ℕ, zero, suc, ◌+◌, ◌*◌, ◌%◌, ◌^◌, Bool, true, false, not, ◌&&◌, ◌||◌, Option, none, some, List,
  [], ◌∷◌, map, ltb, leb, if◌then◌else◌, any, ◌==◌, nat_eq, list_eq,
}
use edge_gateway.Prelude.Text.{Text, strip_prefix, starts_with}
use edge_gateway.Prelude.Maps.{Map, get}
use edge_gateway.Net.{IpAddr, ip_eq}
use edge_gateway.Net.Endpoint.{SocketAddr}
use edge_gateway.Security.Network.{IpNetwork, contains}

abbrev pub seconds : ℕ → ℕ
seconds s = s * 1000000000

abbrev pub shards : ℕ
shards = 64

abbrev pub temporary_seconds : ℕ
temporary_seconds = 300

abbrev pub block_seconds : ℕ
block_seconds = 86400

pub data ViolationRule : Type 0 where
  invalid_websocket invalid_grpc size_violation namespace_scan : ViolationRule

-- The window of a rule.
unfoldable pub window : ViolationRule → ℕ
window size_violation = seconds 300
window invalid_websocket = seconds 60
window invalid_grpc = seconds 60
window namespace_scan = seconds 60

-- One value for each rule: the arrays that `ViolationRule::index` indexes.
pub record PerRule (A : Type 0) : Type 0 where
  pub of_websocket : A
  pub of_grpc : A
  pub of_size : A
  pub of_scan : A

abbrev pub at_rule : {A : Type 0} → ViolationRule → PerRule A → A
at_rule invalid_websocket p = p.of_websocket
at_rule invalid_grpc p = p.of_grpc
at_rule size_violation p = p.of_size
at_rule namespace_scan p = p.of_scan

abbrev pub set_rule : {A : Type 0} → ViolationRule → A → PerRule A → PerRule A
set_rule invalid_websocket a p = record p { of_websocket = a }
set_rule invalid_grpc a p = record p { of_grpc = a }
set_rule size_violation a p = record p { of_size = a }
set_rule namespace_scan a p = record p { of_scan = a }

pub record RuleWindow : Type 0 where
  pub since : ℕ
  pub count : ℕ

pub record ClientWindow : Type 0 where
  pub rules : PerRule RuleWindow
  pub last_seen : ℕ

-- `ResolvedClientAddress` of client_address.rs.
pub data ClientIpSource : Type 0 where
  direct_peer cf_connecting_ip : ClientIpSource

pub record ResolvedClientAddress : Type 0 where
  pub peer : SocketAddr
  pub client_ip : IpAddr
  pub client_ip_source : ClientIpSource
  pub trusted_proxy : Bool

pub record PendingBlock : Type 0 where
  pub address : ResolvedClientAddress
  pub rule : ViolationRule
  pub count : ℕ
  pub deadline : ℕ

pub record BlockRecord : Type 0 where
  pub client_ip : IpAddr
  pub created_at_unix_seconds : ℕ
  pub expires_at_unix_seconds : ℕ
  pub rule : ViolationRule
  pub observed_count : ℕ

-- `ActiveBlock` of ip_blocking_persistence.rs.
pub record ActiveBlock : Type 0 where
  pub block : BlockRecord
  pub deadline : ℕ

-- The part of `FileIpBlockingConfig` that the runtime reads, with the parsed `allow` list.
pub record BlockingConfig : Type 0 where
  pub enabled : Bool
  pub scan_namespaces : List Text
  pub max_tracked_client_ips : ℕ
  pub max_blocked_client_ips : ℕ
  pub max_pending_activations : ℕ
  pub persistence_batch_size : ℕ
  pub thresholds : PerRule ℕ
  pub allow : List IpNetwork

pub record BlockCounters : Type 0 where
  pub violations : PerRule ℕ
  pub rejects : ℕ
  pub activated : ℕ
  pub overflow : ℕ
  pub persistence_failures : ℕ
  pub manager_unavailable : ℕ

-- `fetch_add` on an `AtomicU64` wraps.
abbrev pub fetch_add : ℕ → ℕ → ℕ
fetch_add n k = (n + k) % 2 ^ 64

pub record Runtime : Type 0 where
  pub config : BlockingConfig
  pub durable : Map IpAddr ActiveBlock
  pub temporary : Map IpAddr ℕ
  pub windows : List (Map IpAddr ClientWindow)
  pub pending : Map IpAddr PendingBlock
  pub accepting : Bool
  -- A wake-up that `Notify` keeps for the manager.
  pub notified : Bool
  pub counters : BlockCounters

unfoldable pub allowed : BlockingConfig → IpAddr → Bool
allowed config ip = any (λ network. contains network ip) config.allow

-- A snapshot holds the address with a deadline that lies ahead.
unfoldable pub live_durable : Map IpAddr ActiveBlock → IpAddr → ℕ → Bool
live_durable m ip now = elim (get ip m) [ none ↦ false | some b ↦ ltb now b.deadline ]

unfoldable pub live_temporary : Map IpAddr ℕ → IpAddr → ℕ → Bool
live_temporary m ip now = elim (get ip m) [ none ↦ false | some until ↦ ltb now until ]

unfoldable pub is_blocked : Runtime → IpAddr → ℕ → Bool
unfolding live_durable live_temporary
is_blocked r ip now = live_durable r.durable ip now || live_temporary r.temporary ip now

unfoldable pub is_client_ip_blocked : Runtime → ResolvedClientAddress → ℕ → Runtime × Bool
unfolding is_blocked allowed
is_client_ip_blocked r address now =
    if not r.config.enabled || allowed r.config address.client_ip
    then (r, false)
    else (let blocked = is_blocked r address.client_ip now in
        (
          if blocked
              then record r {
                counters = record r.counters { rejects = fetch_add r.counters.rejects 1 };
              }
              else r,
          blocked,
        ))

in_namespace : Text → Text → Bool
in_namespace path prefix = path == prefix || elim (strip_prefix path prefix) [
  | none ↦ false
  | some suffix ↦ starts_with suffix (b'/' ∷ [])
]

unfoldable pub is_scan_namespace : Runtime → Text → Bool
unfolding in_namespace
is_scan_namespace r path = r.config.enabled && any (in_namespace path) r.config.scan_namespaces

abbrev pub deadlines : Map IpAddr PendingBlock → Map IpAddr ℕ
deadlines [] = []
deadlines ((ip, entry) ∷ m) = (ip, entry.deadline) ∷ deadlines m

unfoldable pub publish_temporary : Runtime → Runtime
publish_temporary r = record r { temporary = deadlines r.pending }

abbrev pub no_counters : BlockCounters
no_counters = record {
  violations = record { of_websocket = 0; of_grpc = 0; of_size = 0; of_scan = 0 };
  rejects = 0;
  activated = 0;
  overflow = 0;
  persistence_failures = 0;
  manager_unavailable = 0;
}

-- `count` empty shards.
unfoldable pub empty_shards : ℕ → List (Map IpAddr ClientWindow)
empty_shards zero = []
empty_shards (suc count) = [] ∷ empty_shards count

-- The runtime over the blocks that the state file holds.
unfoldable pub load : BlockingConfig → Map IpAddr ActiveBlock → Runtime
unfolding empty_shards
load config blocks = record {
  config = config;
  durable = blocks;
  temporary = [];
  windows = empty_shards shards;
  pending = [];
  accepting = true;
  notified = false;
  counters = no_counters;
}
