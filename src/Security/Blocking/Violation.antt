-- ===== src/Security/Blocking/Violation.antt =====
-- src/security/ip_blocking.rs: `record_client_protocol_violation`, from the guards over the client's
-- window in its shard to the queue of pending blocks.
use edge_gateway.Prelude.{
  ℕ, zero, suc, ◌+◌, ◌-◌, ◌/◌, ◌%◌, ◌^◌, Bool, true, not, ◌&&◌, Option, none, some, List, [], ◌∷◌,
  ltb, leb, if◌then◌else◌, length, min, nat_eq, unwrap_or,
}
use edge_gateway.Prelude.Maps.{Map, get, contains_key, insert}
use edge_gateway.Net.{IpAddr, ip_eq}
use edge_gateway.Security.Blocking.{
  ViolationRule, window, at_rule, set_rule, RuleWindow, ClientWindow, ResolvedClientAddress,
  PendingBlock, BlockingConfig, Runtime, seconds, shards, temporary_seconds, fetch_add, allowed,
  is_blocked, publish_temporary,
}

-- The fields of the runtime that a call of the function finds locked by no crashed thread.
pub record Locks : Type 0 where
  pub shard : Bool
  pub pending : Bool

-- How many clients a shard may track.
unfoldable pub capacity : BlockingConfig → ℕ → ℕ
capacity config index =
    config.max_tracked_client_ips / shards
    + (if ltb index (config.max_tracked_client_ips % shards) then 1 else 0)

abbrev pub fresh_window : ℕ → ClientWindow
fresh_window now =
    let start : RuleWindow = record { since = now; count = 0 } in
    record {
      rules = record { of_websocket = start; of_grpc = start; of_size = start; of_scan = start };
      last_seen = now;
    }

-- One more violation: the window starts again when it is over, and the count saturates.
unfoldable pub bump : ViolationRule → ℕ → RuleWindow → RuleWindow
bump rule now w =
    let current : RuleWindow =
      if leb (window rule) (now - w.since) then record { since = now; count = 0 } else w in
    record current { count = min (current.count + 1) (2 ^ 32 - 1) }

abbrev pub shard_at : List (Map IpAddr ClientWindow) → ℕ → Map IpAddr ClientWindow
shard_at [] index = []
shard_at (s ∷ ss) zero = s
shard_at (s ∷ ss) (suc index) = shard_at ss index

abbrev pub set_shard :
    List (Map IpAddr ClientWindow) → ℕ → Map IpAddr ClientWindow → List (Map IpAddr ClientWindow)
set_shard [] index shard = []
set_shard (s ∷ ss) zero shard = shard ∷ ss
set_shard (s ∷ ss) (suc index) shard = s ∷ set_shard ss index shard

-- The client's entry after the violation.
unfoldable pub next_window : ViolationRule → ℕ → ClientWindow → ClientWindow
unfolding bump
next_window rule now entry = record {
  rules = set_rule rule (bump rule now (at_rule rule entry.rules)) entry.rules;
  last_seen = now;
}

-- The shard after the violation, and the client's count; nothing where the shard is full.
unfoldable pub count_violation :
    Map IpAddr ClientWindow → ℕ → IpAddr → ViolationRule → ℕ → Option (Map IpAddr ClientWindow × ℕ)
unfolding next_window
count_violation shard room ip rule now =
    if not (contains_key ip shard) && leb room (length shard)
    then none
    else (let entry = next_window rule now (unwrap_or (fresh_window now) (get ip shard)) in
        some (insert ip entry shard, (at_rule rule entry.rules).count))

count_overflow : Runtime → Runtime
count_overflow r = record r {
  counters = record r.counters { overflow = fetch_add r.counters.overflow 1 };
}

count_unavailable : Runtime → Runtime
count_unavailable r = record r {
  counters = record r.counters { manager_unavailable = fetch_add r.counters.manager_unavailable 1 };
}

-- From the lock of the pending table on.
unfoldable pub queue_block :
    Runtime → Locks → ResolvedClientAddress → ViolationRule → ℕ → ℕ → Runtime
unfolding count_overflow count_unavailable publish_temporary
queue_block r locks address rule count now =
    if not locks.pending
    then count_unavailable r
    else if contains_key address.client_ip r.pending
    then r
    else if leb r.config.max_pending_activations (length r.pending)
    then count_overflow r
    else (let entry : PendingBlock = record {
      address = address;
      rule = rule;
      count = count;
      deadline = now + seconds temporary_seconds;
    } in
        let queued =
          publish_temporary (record r { pending = insert address.client_ip entry r.pending }) in
        record queued { notified = true })

-- From the lock of the shard on.
unfoldable pub track_violation :
    (IpAddr → ℕ) → Runtime → Locks → ResolvedClientAddress → ViolationRule → ℕ → Runtime
unfolding count_overflow count_unavailable
track_violation hash r locks address rule now =
    let index = hash address.client_ip % shards in
    if not locks.shard
    then count_unavailable r
    else elim (count_violation (shard_at r.windows index) (capacity r.config index)
        address.client_ip rule now) [
          | none ↦ count_overflow r
          | some (shard, count) ↦
              let tracked = record r { windows = set_shard r.windows index shard } in
              if ltb count (at_rule rule r.config.thresholds)
              then tracked
              else queue_block tracked locks address rule count now
        ]

unfoldable pub record_client_protocol_violation :
    (IpAddr → ℕ) → Runtime → Locks → ResolvedClientAddress → ViolationRule → ℕ → Runtime
unfolding count_unavailable
record_client_protocol_violation hash r locks address rule now =
    if not r.config.enabled
    then r
    else (let seen = record r {
      counters = record r.counters {
        violations =
            set_rule rule (fetch_add (at_rule rule r.counters.violations) 1) r.counters.violations;
      };
    } in
        if allowed r.config address.client_ip
        then seen
        else if not r.accepting
        then count_unavailable seen
        else if is_blocked r address.client_ip now
        then seen
        else track_violation hash seen locks address rule now)
