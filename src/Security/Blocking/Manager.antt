-- ===== src/Security/Blocking/Manager.antt =====
-- src/security/ip_blocking.rs: the rounds of `run_manager`, around the persistence task.
use edge_gateway.Prelude.{
  ℕ, suc, ◌+◌, ◌-◌, ◌*◌, Bool, true, false, not, ◌&&◌, ◌||◌, List, [], ◌∷◌, Result, ok, err, ltb,
  leb, if◌then◌else◌, length, min, is_empty, ◌==◌, nat_eq,
}
use edge_gateway.Prelude.Maps.{Map, retain}
use edge_gateway.Net.{IpAddr, ip_eq}
use edge_gateway.Security.Blocking.{ClientWindow, Runtime, seconds, fetch_add, publish_temporary}
use edge_gateway.Security.Blocking.Persist.{PersistError, capacity_reached}

-- The local variables of the loop.
pub record ManagerState : Type 0 where
  pub backoff : ℕ
  pub retry_after : ℕ
  pub first_sweep : Bool
  pub last_sweep : ℕ

abbrev pub start_manager : ℕ → ManagerState
start_manager now = record {
  backoff = seconds 1;
  retry_after = now;
  first_sweep = true;
  last_sweep = now;
}

abbrev pub sweep_due : ManagerState → ℕ → Bool
sweep_due s now = leb (seconds 30) (now - s.last_sweep)

-- What a round meets: whether it was the notification that woke it, not the timer, and which locks it
-- finds free of a crashed thread, one for each shard and the table's.
pub record RoundInput : Type 0 where
  pub woken : Bool
  pub shard : ℕ → Bool
  pub pending : Bool

-- Clients that were not seen for half an hour are forgotten.
unfoldable pub sweep_windows :
    (ℕ → Bool) → ℕ → ℕ → List (Map IpAddr ClientWindow) → List (Map IpAddr ClientWindow)
sweep_windows lock i now [] = []
sweep_windows lock i now (shard ∷ rest) =
    (if lock i then retain (λ _ w. ltb (now - w.last_seen) (seconds 1800)) shard else shard)
    ∷ sweep_windows lock (suc i) now rest

-- Pending entries whose deadline has come are dropped, and the temporary map follows.
unfoldable pub expire_pending : Runtime → Bool → ℕ → Runtime
unfolding publish_temporary
expire_pending r lock now =
    let kept = retain (λ _ e. ltb now e.deadline) r.pending in
    if not lock || length kept == length r.pending
    then r
    else publish_temporary (record r { pending = kept })

-- A round up to the decision whether to persist.
unfoldable pub clean_up : Runtime → ManagerState → RoundInput → ℕ → Runtime × ManagerState
unfolding sweep_windows expire_pending
clean_up r s locks now =
    let due = sweep_due s now in
    let swept =
      if due then record r { windows = sweep_windows locks.shard 0 now r.windows } else r in
    (
      expire_pending (record swept { notified = swept.notified && not locks.woken }) locks.pending
          now,
      if due then record s { last_sweep = now } else s,
    )

unfoldable pub should_persist : Runtime → ManagerState → Bool → Bool → ℕ → Bool
should_persist r s lock due now =
    leb s.retry_after now && ((lock && not (is_empty r.pending)) || s.first_sweep || due)

is_capacity : PersistError → Bool
is_capacity capacity_reached = true
is_capacity _ = false

-- What follows the result of `persist_pending`, at a later instant.
unfoldable pub after_persist :
    Runtime → ManagerState → Result PersistError (Unit {0}) → ℕ → Runtime × ManagerState
unfolding is_capacity
after_persist r s (ok u) now =
    (r, record s { first_sweep = false; backoff = seconds 1; retry_after = now })
after_persist r s (err e) now = (
  if is_capacity e then r else record r {
    counters = record r.counters {
      persistence_failures = fetch_add r.counters.persistence_failures 1;
    };
  },
  record s { retry_after = now + s.backoff; backoff = min (s.backoff * 2) (seconds 60) },
)

-- At a shutdown the manager accepts no more.
unfoldable pub begin_shutdown : Runtime → Runtime
begin_shutdown r = record r { accepting = false }

-- The start of a round of the shutdown: the expired entries go, and the answer is whether any is left.
unfoldable pub shutdown_round : Runtime → Bool → ℕ → Runtime × Bool
unfolding publish_temporary
shutdown_round r lock now =
    let kept = retain (λ _ e. ltb now e.deadline) r.pending in
    if not lock
    then (r, false)
    else (publish_temporary (record r { pending = kept }), not (is_empty kept))
