-- ===== src/Security/Blocking/Isolation.antt =====
-- src/security/ip_blocking.rs: what a violation may change for the clients of other addresses.
use edge_gateway.Prelude.{ℕ, ◌%◌, Option-cases, ◌≡◌, ◌≢◌, arith, inl, inr, ◌+◌}
use edge_gateway.Prelude.Maps.{Map, insert, get-insert}
use edge_gateway.Net.{IpAddr, ip_eq}
use edge_gateway.Security.Blocking.{
  ViolationRule, ResolvedClientAddress, PendingBlock, Runtime, seconds, temporary_seconds, shards,
  at_rule, set_rule, fetch_add, is_blocked, deadlines, live_temporary, publish_temporary,
}
use edge_gateway.Security.Blocking.Violation.{
  Locks, shard_at, set_shard, capacity, count_violation, queue_block, track_violation,
  record_client_protocol_violation,
}
use edge_gateway.Security.Blocking.Escalation.{live_deadlines}
use edge_gateway.Security.Blocking.Invariant.{IsValid}

-- Two tables of pending clients that agree at an address restrict it alike.
live_deadlines-insert :
    (ip other : IpAddr) (entry : PendingBlock) (m : Map IpAddr PendingBlock) (later : ℕ)
    → ip ≢ other
    → live_temporary (deadlines (insert ip entry m)) other later
      ≡ live_temporary (deadlines m) other later
live_deadlines-insert ip other entry m later apart = ground (
  arith,
  live_deadlines other (insert ip entry m) later,
  live_deadlines other m later,
  get-insert ip other entry m,
  ip_eq.beq_iff ip other,
)

queue_block-others :
    (r : Runtime) (locks : Locks) (address : ResolvedClientAddress) (rule : ViolationRule)
    (count now : ℕ) (other : IpAddr) (later : ℕ)
    → r.temporary ≡ deadlines r.pending
    → address.client_ip ≢ other
    → is_blocked (queue_block r locks address rule count now) other later ≡ is_blocked r other later
unfolding queue_block is_blocked publish_temporary
queue_block-others r locks address rule count now other later published apart =
    let entry : PendingBlock = record {
      address = address;
      rule = rule;
      count = count;
      deadline = now + seconds temporary_seconds;
    } in
    ground (arith, live_deadlines-insert address.client_ip other entry r.pending later apart)

track-others :
    (hash : IpAddr → ℕ) (r : Runtime) (locks : Locks) (address : ResolvedClientAddress)
    (rule : ViolationRule) (now : ℕ) (other : IpAddr) (later : ℕ)
    → r.temporary ≡ deadlines r.pending
    → address.client_ip ≢ other
    → is_blocked (track_violation hash r locks address rule now) other later
      ≡ is_blocked r other later
unfolding track_violation is_blocked
track-others hash r locks address rule now other later published apart =
    let index = hash address.client_ip % shards in
    elim (Option-cases (
      count_violation (shard_at r.windows index) (capacity r.config index) address.client_ip rule
        now)) [
          | inl full ↦ ground arith
          | inr ((shard, count), fits) ↦
              let tracked = record r { windows = set_shard r.windows index shard } in
              ground (
                arith,
                queue_block-others tracked locks address rule count now other later published apart,
              )
        ]

-- In a valid state, a violation of one client leaves every answer about another client as it was, at
-- every instant, whatever the locks do.
pub other_clients_unaffected :
    (hash : IpAddr → ℕ) (r : Runtime) (locks : Locks) (address : ResolvedClientAddress)
    (rule : ViolationRule) (now : ℕ) (other : IpAddr) (later : ℕ)
    → IsValid r
    → address.client_ip ≢ other
    → is_blocked (record_client_protocol_violation hash r locks address rule now) other later
      ≡ is_blocked r other later
unfolding record_client_protocol_violation is_blocked
other_clients_unaffected hash r locks address rule now other later v apart =
    let seen = record r {
      counters = record r.counters {
        violations =
            set_rule rule (fetch_add (at_rule rule r.counters.violations) 1) r.counters.violations;
      };
    } in
    ground (arith, track-others hash seen locks address rule now other later v.published apart)
