-- ===== src/Security/Settings/Laws.antt =====
-- src/security/ip_blocking_config.rs: what a validated configuration guarantees to the runtime.
use edge_gateway.Prelude.{ℕ, ◌≡◌, ◌≤◌, ◌<◌, ◌^◌, ok, Option, arith}
use edge_gateway.Prelude.Text.{Text}
use edge_gateway.Security.Blocking.{
  BlockingConfig, ViolationRule, invalid_websocket, invalid_grpc, size_violation, namespace_scan,
  at_rule,
}
use edge_gateway.Security.Blocking.Violation.{capacity}
use edge_gateway.Security.Settings.{
  FileIpBlockingConfig, IpBlockingConfig, check_thresholds, validate_blocking, runtime_config,
}

-- What the runtime relies on: room in every shard, a batch that makes progress, thresholds that a
-- 32-bit count reaches.
pub record IsWorkable (c : BlockingConfig) : Type 0 where
  pub room : (index : ℕ) → 0 < capacity c index
  pub blocks : (0 < c.max_blocked_client_ips) × (c.max_blocked_client_ips ≤ 100000)
  pub pending :
      (0 < c.max_pending_activations) × (c.max_pending_activations ≤ c.max_tracked_client_ips)
  pub batch :
      (0 < c.persistence_batch_size) × (c.persistence_batch_size ≤ c.max_pending_activations)
  pub thresholds :
      (rule : ViolationRule)
      → (0 < at_rule rule c.thresholds) × (at_rule rule c.thresholds < 2 ^ 32)

-- A configuration that is accepted gives every shard of the runtime room for a client, a pending table
-- and batches that are not empty and within the limits, and thresholds that a count of 32 bits reaches.
pub validate-IsWorkable :
    (file_name : Text → Option Text) (directory : Text) (f : FileIpBlockingConfig)
    (c : IpBlockingConfig)
    → validate_blocking file_name directory f ≡ ok c
    → IsWorkable (runtime_config c)
unfolding validate_blocking check_thresholds capacity
validate-IsWorkable file_name directory f c h = record {
  room = λ index. room index;
  blocks = ground arith;
  pending = ground arith;
  batch = ground arith;
  thresholds = λ rule. reached rule;
}
  where
    tracked : 64 ≤ c.file.max_tracked_client_ips
    tracked = ground arith

    room : (index : ℕ) → 0 < capacity (runtime_config c) index
    room index = omega (arith, tracked)

    reached :
        (rule : ViolationRule)
        → (0 < at_rule rule (runtime_config c).thresholds)
          × (at_rule rule (runtime_config c).thresholds < 2 ^ 32)
    reached invalid_websocket = ground arith
    reached invalid_grpc = ground arith
    reached size_violation = ground arith
    reached namespace_scan = ground arith
