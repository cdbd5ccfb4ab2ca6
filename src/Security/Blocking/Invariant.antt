-- ===== src/Security/Blocking/Invariant.antt =====
-- src/security/ip_blocking.rs: what every call keeps true of the shared state.
use edge_gateway.Prelude.{
  ℕ, zero, suc, ◌+◌, ◌-◌, ◌%◌, ◌≤◌, ◌≡◌, refl, Bool, some, List, [], ◌∷◌, arith, ltb, length,
  Bool-cases, inl, inr, Option-cases, ok, err, ap, unwrap_or, ◌∙◌, Result, ◌&&◌, not,
}
use edge_gateway.Prelude.Maps.{
  Map, IsMap, get, retain, contains_key, length-insert-le, length-insert_known, insert-IsMap,
  retain-IsMap, length-retain-le,
}
use edge_gateway.Net.{IpAddr, ip_eq}
use edge_gateway.Security.Blocking.{
  ViolationRule, ClientWindow, ResolvedClientAddress, PendingBlock, ActiveBlock, BlockingConfig,
  Runtime, shards, deadlines, publish_temporary, is_client_ip_blocked, seconds, temporary_seconds,
  BlockCounters, set_rule, fetch_add, at_rule,
}
use edge_gateway.Security.Blocking.Violation.{
  Locks, capacity, count_violation, queue_block, track_violation, shard_at, set_shard,
  record_client_protocol_violation, next_window, fresh_window,
}
use edge_gateway.Security.Blocking.Persist.{PersistError}
use edge_gateway.Security.Blocking.Manager.{
  ManagerState, sweep_windows, expire_pending, clean_up, after_persist, shutdown_round, sweep_due,
  RoundInput,
}

-- Each shard from `i` on tracks at most as many clients as its share.
abbrev pub WindowsFit : BlockingConfig → ℕ → List (Map IpAddr ClientWindow) → Type 0
WindowsFit config i [] = Unit
WindowsFit config i (s ∷ ss) = (length s ≤ capacity config i) × WindowsFit config (suc i) ss

-- A snapshot of blocks within the configured number.
abbrev pub BlocksFit : BlockingConfig → Map IpAddr ActiveBlock → Type 0
BlocksFit config m = IsMap m × (length m ≤ config.max_blocked_client_ips)

pub record IsValid (r : Runtime) : Type 0 where
  pub published : r.temporary ≡ deadlines r.pending
  pub pending_map : IsMap r.pending
  pub pending_bounded : length r.pending ≤ r.config.max_pending_activations
  pub blocks_fit : BlocksFit r.config r.durable
  pub windows_fit : WindowsFit r.config 0 r.windows
  pub sharded : length r.windows ≡ shards

count_violation-fits :
    (shard : Map IpAddr ClientWindow) (room : ℕ) (ip : IpAddr) (rule : ViolationRule) (now : ℕ)
    (shard' : Map IpAddr ClientWindow) (count : ℕ)
    → length shard ≤ room
    → count_violation shard room ip rule now ≡ some (shard', count)
    → length shard' ≤ room
unfolding count_violation
count_violation-fits shard room ip rule now shard' count h e =
    let entry = next_window rule now (unwrap_or (fresh_window now) (get ip shard)) in
    elim (Bool-cases (contains_key ip shard)) [
      | inl old ↦ ground (arith, length-insert_known ip entry shard old)
      | inr new ↦ ground (arith, length-insert-le ip entry shard)
    ]

shard_at-fits :
    (config : BlockingConfig) (i index : ℕ) (ss : List (Map IpAddr ClientWindow))
    → WindowsFit config i ss
    → length (shard_at ss index) ≤ capacity config (i + index)
shard_at-fits config i index [] h = omega arith
shard_at-fits config i zero (s ∷ ss) h = let e : i + 0 ≡ i = omega arith in rw e h.0
shard_at-fits config i (suc index) (s ∷ ss) h =
    let e : i + suc index ≡ suc i + index = omega arith in
    rw e (shard_at-fits config (suc i) index ss h.1)

set_shard-fits :
    (config : BlockingConfig) (i index : ℕ) (ss : List (Map IpAddr ClientWindow))
    (s : Map IpAddr ClientWindow)
    → WindowsFit config i ss
    → length s ≤ capacity config (i + index)
    → WindowsFit config i (set_shard ss index s)
set_shard-fits config i index [] s h l = tt
set_shard-fits config i zero (t ∷ ss) s h l = let e : i + 0 ≡ i = omega arith in (rw e at l, h.1)
set_shard-fits config i (suc index) (t ∷ ss) s h l =
    let e : i + suc index ≡ suc i + index = omega arith in
    (h.0, set_shard-fits config (suc i) index ss s h.1 (rw e at l))

pub length-set_shard :
    (ss : List (Map IpAddr ClientWindow)) (index : ℕ) (s : Map IpAddr ClientWindow)
    → length (set_shard ss index s) ≡ length ss
length-set_shard [] index s = refl
length-set_shard (t ∷ ss) zero s = refl
length-set_shard (t ∷ ss) (suc index) s = ap suc (length-set_shard ss index s)

pub queue_block-IsValid :
    (r : Runtime) (locks : Locks) (address : ResolvedClientAddress) (rule : ViolationRule)
    (count now : ℕ)
    → IsValid r
    → IsValid (queue_block r locks address rule count now)
unfolding queue_block
queue_block-IsValid r locks address rule count now v =
    let entry : PendingBlock = record {
      address = address;
      rule = rule;
      count = count;
      deadline = now + seconds temporary_seconds;
    } in
    ground (
      arith,
      length-insert-le address.client_ip entry r.pending,
      insert-IsMap address.client_ip entry r.pending v.pending_map,
    )

pub counters-IsValid :
    (r : Runtime) (c : BlockCounters) → IsValid r → IsValid (record r { counters = c })
counters-IsValid r c v = record {
  published = v.published;
  pending_map = v.pending_map;
  pending_bounded = v.pending_bounded;
  blocks_fit = v.blocks_fit;
  windows_fit = v.windows_fit;
  sharded = v.sharded;
}

bound_here :
    (r : Runtime) (index : ℕ)
    → IsValid r
    → length (shard_at r.windows index) ≤ capacity r.config index
bound_here r index v =
    let e : 0 + index ≡ index = omega arith in
    rw e at (shard_at-fits r.config 0 index r.windows v.windows_fit)

tracked-IsValid :
    (r : Runtime) (index : ℕ) (shard : Map IpAddr ClientWindow)
    → IsValid r
    → length shard ≤ capacity r.config index
    → IsValid (record r { windows = set_shard r.windows index shard })
tracked-IsValid r index shard v h = record {
  published = v.published;
  pending_map = v.pending_map;
  pending_bounded = v.pending_bounded;
  blocks_fit = v.blocks_fit;
  windows_fit =
      let e : 0 + index ≡ index = omega arith in
      set_shard-fits r.config 0 index r.windows shard v.windows_fit (rw e h);
  sharded = length-set_shard r.windows index shard ∙ v.sharded;
}

track_violation-IsValid :
    (hash : IpAddr → ℕ) (r : Runtime) (locks : Locks) (address : ResolvedClientAddress)
    (rule : ViolationRule) (now : ℕ)
    → IsValid r
    → IsValid (track_violation hash r locks address rule now)
unfolding track_violation
track_violation-IsValid hash r locks address rule now v =
    let index = hash address.client_ip % shards in
    let room = capacity r.config index in
    let shard = shard_at r.windows index in
    elim (Option-cases (count_violation shard room address.client_ip rule now)) [
      | inl full ↦ ground arith
      | inr ((shard', count), counted) ↦
          let fits =
            count_violation-fits shard room address.client_ip rule now shard' count
              (bound_here r index v) counted in
          let tracked = record r { windows = set_shard r.windows index shard' } in
          let valid = tracked-IsValid r index shard' v fits in
          ground (arith, valid, queue_block-IsValid tracked locks address rule count now valid)
    ]

pub record-IsValid :
    (hash : IpAddr → ℕ) (r : Runtime) (locks : Locks) (address : ResolvedClientAddress)
    (rule : ViolationRule) (now : ℕ)
    → IsValid r
    → IsValid (record_client_protocol_violation hash r locks address rule now)
unfolding record_client_protocol_violation
record-IsValid hash r locks address rule now v =
    let seen = record r {
      counters = record r.counters {
        violations =
            set_rule rule (fetch_add (at_rule rule r.counters.violations) 1) r.counters.violations;
      };
    } in
    let valid = counters-IsValid r seen.counters v in
    ground (arith, valid, track_violation-IsValid hash seen locks address rule now valid)

pub read-IsValid :
    (r : Runtime) (address : ResolvedClientAddress) (now : ℕ)
    → IsValid r
    → IsValid (is_client_ip_blocked r address now).0
unfolding is_client_ip_blocked
read-IsValid r address now v = ground arith

sweep_windows-fit :
    (config : BlockingConfig) (lock : ℕ → Bool) (now i j : ℕ) (ss : List (Map IpAddr ClientWindow))
    → WindowsFit config i ss
    → WindowsFit config i (sweep_windows lock j now ss)
unfolding sweep_windows
sweep_windows-fit config lock now i j [] h = tt
sweep_windows-fit config lock now i j (s ∷ ss) h = (
  ground (arith, length-retain-le (λ _ w. ltb (now - w.last_seen) (seconds 1800)) s),
  sweep_windows-fit config lock now (suc i) (suc j) ss h.1,
)

length-sweep_windows :
    (lock : ℕ → Bool) (j now : ℕ) (ss : List (Map IpAddr ClientWindow))
    → length (sweep_windows lock j now ss) ≡ length ss
unfolding sweep_windows
length-sweep_windows lock j now [] = refl
length-sweep_windows lock j now (s ∷ ss) = ap suc (length-sweep_windows lock (suc j) now ss)

-- The entries that a time limit spares.
retained-IsValid :
    (r : Runtime) (now : ℕ)
    → IsValid r
    → IsValid
        (publish_temporary (record r { pending = retain (λ _ e. ltb now e.deadline) r.pending }))
unfolding publish_temporary
retained-IsValid r now v = record {
  published = refl;
  pending_map = retain-IsMap (λ _ e. ltb now e.deadline) r.pending v.pending_map;
  pending_bounded =
      omega (arith, length-retain-le (λ _ e. ltb now e.deadline) r.pending, v.pending_bounded);
  blocks_fit = v.blocks_fit;
  windows_fit = v.windows_fit;
  sharded = v.sharded;
}

expire_pending-IsValid :
    (r : Runtime) (lock : Bool) (now : ℕ) → IsValid r → IsValid (expire_pending r lock now)
unfolding expire_pending
expire_pending-IsValid r lock now v = ground (arith, v, retained-IsValid r now v)

pub shutdown_round-IsValid :
    (r : Runtime) (lock : Bool) (now : ℕ) → IsValid r → IsValid (shutdown_round r lock now).0
unfolding shutdown_round
shutdown_round-IsValid r lock now v = ground (arith, v, retained-IsValid r now v)

swept-IsValid :
    (r : Runtime) (lock : ℕ → Bool) (now : ℕ)
    → IsValid r
    → IsValid (record r { windows = sweep_windows lock 0 now r.windows })
swept-IsValid r lock now v = record {
  published = v.published;
  pending_map = v.pending_map;
  pending_bounded = v.pending_bounded;
  blocks_fit = v.blocks_fit;
  windows_fit = sweep_windows-fit r.config lock now 0 0 r.windows v.windows_fit;
  sharded = length-sweep_windows lock 0 now r.windows ∙ v.sharded;
}

pub flags-IsValid :
    (r : Runtime) (a n : Bool) → IsValid r → IsValid (record r { accepting = a; notified = n })
flags-IsValid r a n v = record {
  published = v.published;
  pending_map = v.pending_map;
  pending_bounded = v.pending_bounded;
  blocks_fit = v.blocks_fit;
  windows_fit = v.windows_fit;
  sharded = v.sharded;
}

pub clean_up-IsValid :
    (r : Runtime) (s : ManagerState) (locks : RoundInput) (now : ℕ)
    → IsValid r
    → IsValid (clean_up r s locks now).0
unfolding clean_up
clean_up-IsValid r s locks now v = elim (Bool-cases (sweep_due s now)) [
  | inl due ↦
      let swept = swept-IsValid r locks.shard now v in
      rw due (
        expire_pending-IsValid _ locks.pending now
          (flags-IsValid _ r.accepting (r.notified && not locks.woken) swept))
  | inr early ↦ rw early (
      expire_pending-IsValid _ locks.pending now
        (flags-IsValid r r.accepting (r.notified && not locks.woken) v))
]

pub after_persist-IsValid :
    (r : Runtime) (s : ManagerState) (o : Result PersistError (Unit {0})) (now : ℕ)
    → IsValid r
    → IsValid (after_persist r s o now).0
unfolding after_persist
after_persist-IsValid r s (ok u) now v = v
after_persist-IsValid r s (err e) now v = ground (arith, v)
