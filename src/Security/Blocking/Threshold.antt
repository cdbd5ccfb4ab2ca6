-- ===== src/Security/Blocking/Threshold.antt =====
-- src/security/ip_blocking.rs: a client whose violations of a rule reach its threshold.
use edge_gateway.Prelude.{
  ℕ, ◌+◌, ◌≤◌, ◌<◌, ltb, leb, ◌≡◌, ◌%◌, ◌^◌, refl, ap, ◌∙◌, true, false, List, [], ◌∷◌, none, some,
  arith, length, Bool-cases, inl, inr, if◌then◌else◌, sym,
}
use edge_gateway.Prelude.Maps.{Map, get, contains_key}
use edge_gateway.Net.{IpAddr, ip_eq}
use edge_gateway.Security.Blocking.{
  ViolationRule, window, at_rule, set_rule, ClientWindow, ResolvedClientAddress, Runtime, shards,
  seconds, temporary_seconds, allowed, is_blocked, is_client_ip_blocked, fetch_add,
}
use edge_gateway.Security.Blocking.Violation.{
  capacity, shard_at, set_shard, count_violation, queue_block, track_violation,
  record_client_protocol_violation,
}
use edge_gateway.Security.Blocking.Escalation.{
  no_failures, queued_is_blocked, shard_at-set_shard, not_blocked_later, Warned, count_again,
  count_first,
}
use edge_gateway.Security.Blocking.Invariant.{length-set_shard}
use edge_gateway.Security.Blocking.Constant.{config-queue_block}

module _ (hash : IpAddr → ℕ) (address : ResolvedClientAddress) (rule : ViolationRule) where
  -- The violations of the client at the given instants.
  abbrev pub offend : Runtime → List ℕ → Runtime
  offend r [] = r
  offend r (now ∷ times) =
      offend (record_client_protocol_violation hash r no_failures address rule now) times

  -- The client may be blocked, but is not, and neither is it pending; there is room for it.
  pub record IsEligible (r : Runtime) (now : ℕ) : Type 0 where
    pub enabled : r.config.enabled ≡ true
    pub accepting : r.accepting ≡ true
    pub not_allowed : allowed r.config address.client_ip ≡ false
    pub free : is_blocked r address.client_ip now ≡ false
    pub unqueued : contains_key address.client_ip r.pending ≡ false
    pub room : length r.pending < r.config.max_pending_activations
    pub sharded : length r.windows ≡ shards

  -- The state after a violation that the client's shard counts.
  counted : Runtime → Map IpAddr ClientWindow → Runtime
  counted r shard = record r {
    windows = set_shard r.windows (hash address.client_ip % shards) shard;
    counters = record r.counters {
      violations =
          set_rule rule (fetch_add (at_rule rule r.counters.violations) 1) r.counters.violations;
    };
  }

  own_shard : Runtime → Map IpAddr ClientWindow
  own_shard r = shard_at r.windows (hash address.client_ip % shards)

  own_room : Runtime → ℕ
  own_room r = capacity r.config (hash address.client_ip % shards)

  record_counted :
      (r : Runtime) (now count : ℕ) (shard : Map IpAddr ClientWindow)
      → IsEligible r now
      → count_violation (own_shard r) (own_room r) address.client_ip rule now ≡ some (shard, count)
      → record_client_protocol_violation hash r no_failures address rule now ≡ (
          if ltb count (at_rule rule r.config.thresholds)
          then counted r shard
          else queue_block (counted r shard) no_failures address rule count now)
  unfolding record_client_protocol_violation track_violation counted own_shard own_room
  record_counted r now count shard h e = simp (h.enabled, h.not_allowed, h.accepting, h.free, e)

  IsEligible-counted :
      (r : Runtime) (shard : Map IpAddr ClientWindow) (now : ℕ)
      → IsEligible r now
      → IsEligible (counted r shard) now
  unfolding counted is_blocked
  IsEligible-counted r shard now h = record {
    enabled = h.enabled;
    accepting = h.accepting;
    not_allowed = h.not_allowed;
    free = h.free;
    unqueued = h.unqueued;
    room = h.room;
    sharded = length-set_shard r.windows (hash address.client_ip % shards) shard ∙ h.sharded;
  }

  IsEligible-later :
      (r : Runtime) (now later : ℕ) → IsEligible r now → now ≤ later → IsEligible r later
  IsEligible-later r now later h le = record {
    enabled = h.enabled;
    accepting = h.accepting;
    not_allowed = h.not_allowed;
    free = not_blocked_later r address.client_ip now later h.free le;
    unqueued = h.unqueued;
    room = h.room;
    sharded = h.sharded;
  }

  own_shard-counted :
      (r : Runtime) (shard : Map IpAddr ClientWindow) (now : ℕ)
      → IsEligible r now
      → own_shard (counted r shard) ≡ shard
  unfolding own_shard counted
  own_shard-counted r shard now h =
      let inside : hash address.client_ip % shards < length r.windows =
        rw h.sharded (omega arith) in
      shard_at-set_shard r.windows (hash address.client_ip % shards) shard inside

  answer :
      (r : Runtime) (later : ℕ)
      → r.config.enabled ≡ true
      → allowed r.config address.client_ip ≡ false
      → (is_client_ip_blocked r address later).1 ≡ is_blocked r address.client_ip later
  unfolding is_client_ip_blocked
  answer r later enabled not_allowed = simp (enabled, not_allowed)

  answer_queued :
      (r : Runtime) (shard : Map IpAddr ClientWindow) (count now later : ℕ)
      → IsEligible r now
      → later < now + seconds temporary_seconds
      → (is_client_ip_blocked
          (queue_block (counted r shard) no_failures address rule count now)
          address
          later).1
        ≡ true
  unfolding counted
  answer_queued r shard count now later h before =
      let tracked = counted r shard in
      let same = config-queue_block tracked no_failures address rule count now in
      let queued = queue_block tracked no_failures address rule count now in
      let blocked =
        queued_is_blocked tracked address rule count now later h.unqueued h.room before in
      answer queued later (ap (λ c. c.enabled) same ∙ h.enabled)
        (ap (λ c. allowed c address.client_ip) same ∙ h.not_allowed)
      ∙ blocked

  -- The instants lie within the window that began at `since`.
  abbrev pub Within : ℕ → List ℕ → Type 0
  Within since [] = Unit
  Within since (t ∷ times) = (since ≤ t) × (t < since + window rule) × Within since times

  abbrev pub last_of : ℕ → List ℕ → ℕ
  last_of t [] = t
  last_of t (u ∷ times) = last_of u times

  threshold_of : Runtime → ℕ
  threshold_of r = at_rule rule r.config.thresholds

  -- The violation at `t` is counted below the threshold.
  offend_below :
      (r : Runtime) (shard : Map IpAddr ClientWindow) (t n : ℕ)
      → IsEligible r t
      → count_violation (own_shard r) (own_room r) address.client_ip rule t ≡ some (shard, n)
      → n < threshold_of r
      → record_client_protocol_violation hash r no_failures address rule t ≡ counted r shard
  unfolding threshold_of
  offend_below r shard t n h e below =
      let small : ltb n (at_rule rule r.config.thresholds) ≡ true = ground arith in
      record_counted r t n shard h e ∙ rw small refl

  offend_at :
      (r : Runtime) (shard : Map IpAddr ClientWindow) (t n : ℕ)
      → IsEligible r t
      → count_violation (own_shard r) (own_room r) address.client_ip rule t ≡ some (shard, n)
      → threshold_of r ≤ n
      → record_client_protocol_violation hash r no_failures address rule t
        ≡ queue_block (counted r shard) no_failures address rule n t
  unfolding threshold_of
  offend_at r shard t n h e reached =
      let large : ltb n (at_rule rule r.config.thresholds) ≡ false = ground arith in
      record_counted r t n shard h e ∙ rw large refl

  -- The last violation of a run decides.
  last_violation :
      (r : Runtime) (shard : Map IpAddr ClientWindow) (since t n later : ℕ)
      → IsEligible r since
      → since ≤ t
      → count_violation (own_shard r) (own_room r) address.client_ip rule t ≡ some (shard, n)
      → since ≤ later
      → later < t + seconds temporary_seconds
      → (is_client_ip_blocked (offend r (t ∷ [])) address later).1 ≡ leb (threshold_of r) n
  unfolding counted is_blocked
  last_violation r shard since t n later h le e from before =
      let there = IsEligible-later r since t h le in
      elim (Bool-cases (leb (threshold_of r) n)) [
        | inl reached ↦
            rw (offend_at r shard t n there e (ground arith))
              (answer_queued r shard n t later there before ∙ sym reached)
        | inr below ↦ rw (offend_below r shard t n there e (ground arith)) (
            answer (counted r shard) later h.enabled h.not_allowed
            ∙ not_blocked_later r address.client_ip since later h.free from
            ∙ sym below)
      ]

  run_of_violations :
      (times : List ℕ) (r : Runtime) (shard : Map IpAddr ClientWindow) (since t n later : ℕ)
      → IsEligible r since
      → since ≤ t
      → count_violation (own_shard r) (own_room r) address.client_ip rule t ≡ some (shard, n)
      → Warned address.client_ip rule since n shard
      → Within since times
      → n + length times ≤ threshold_of r
      → threshold_of r < 2 ^ 32
      → since ≤ later
      → later < last_of t times + seconds temporary_seconds
      → (is_client_ip_blocked (offend r (t ∷ times)) address later).1
        ≡ leb (threshold_of r) (n + length times)
  unfolding counted threshold_of
  run_of_violations [] r shard since t n later h le e w inside most small from before =
      let plain : n + 0 ≡ n = omega arith in
      rw plain (last_violation r shard since t n later h le e from before)
  run_of_violations (u ∷ times) r shard since t n later h le e w inside most small from before =
      let there = IsEligible-later r since t h le in
      let next = counted r shard in
      let own : own_shard next ≡ shard = own_shard-counted r shard t there in
      let warned : Warned address.client_ip rule since n (own_shard next) = rw own w in
      let again =
        count_again (own_shard next) (own_room next) address.client_ip rule u since n warned
          inside.1 (ground arith) in
      let rest =
        run_of_violations times next again.0 since u (n + 1) later
          (IsEligible-counted r shard since h) inside.0 again.1 again.2 inside.2 (ground arith)
          small from before in
      let sum : n + length (u ∷ times) ≡ n + 1 + length times = omega arith in
      rw (offend_below r shard t n there e (ground arith), sum) rest

-- When an enabled, accepting runtime neither allows, blocks, queues nor tracks a client, and has room
-- for it among its pending clients and in its shard, then after violations of one rule at
-- instants `t ∷ times` of one window, at most as many as the rule's threshold and with no lock
-- failing, the client is refused at every later instant, up to five minutes after the last violation,
-- exactly when the number of violations has reached the threshold.
pub refused_at_threshold :
    (hash : IpAddr → ℕ) (address : ResolvedClientAddress) (rule : ViolationRule) (r : Runtime)
    (t : ℕ) (times : List ℕ) (later : ℕ)
    → IsEligible hash address rule r t
    → get address.client_ip (shard_at r.windows (hash address.client_ip % shards)) ≡ none
    → length (shard_at r.windows (hash address.client_ip % shards))
      < capacity r.config (hash address.client_ip % shards)
    → Within hash address rule t times
    → length (t ∷ times) ≤ at_rule rule r.config.thresholds
    → at_rule rule r.config.thresholds < 2 ^ 32
    → t ≤ later
    → later < last_of hash address rule t times + seconds temporary_seconds
    → (is_client_ip_blocked (offend hash address rule r (t ∷ times)) address later).1
      ≡ leb (at_rule rule r.config.thresholds) (length (t ∷ times))
unfolding own_shard own_room threshold_of
refused_at_threshold hash address rule r t times later h absent fits inside most small from before =
    let first =
      count_first (own_shard hash address rule r) (own_room hash address rule r) address.client_ip
        rule t absent fits in
    let run =
      run_of_violations hash address rule times r first.0 t t 1 later h (omega arith) first.1
        first.2 inside (ground arith) small from before in
    let sum : length (t ∷ times) ≡ 1 + length times = omega arith in rw sum run
