-- ===== src/Security/Blocking/Persist.antt =====
-- src/security/ip_blocking.rs: `persist_pending` and `consume_pending`. The function takes its
-- snapshots, hands them to a blocking task, and commits the outcome; other threads run in between, so
-- the three parts are functions of their own. The order of a list of pending entries stands for the
-- iteration order of the table, about which nothing is assumed.
use edge_gateway.Prelude.{
  ℕ, ◌+◌, ◌^◌, Bool, true, false, not, ◌&&◌, ◌||◌, Option, none, some, List, [], ◌∷◌, Result, ok,
  err, ◌>>=◌, ◌>>◌, guard, ok_or, ltb, leb, if◌then◌else◌, length, take, filter, is_empty, any,
  ◌++◌,
}
use edge_gateway.Prelude.Maps.{Map, contains_key, insert, remove, retain}
use edge_gateway.Net.{IpAddr, ip_eq}
use edge_gateway.Security.Blocking.{
  PendingBlock, ActiveBlock, BlockingConfig, Runtime, seconds, block_seconds, fetch_add, allowed,
  publish_temporary,
}

pub data PersistError : Type 0 where
  capacity_reached pending_unavailable clock_before_epoch timestamp_overflow : PersistError
  write_failed writer_missing : PersistError

-- The snapshots with which the task starts.
pub record Job : Type 0 where
  pub old : Map IpAddr ActiveBlock
  pub pending : List (IpAddr × PendingBlock)

-- The writer is there exactly where the configuration enables the blocking.
unfoldable pub prepare : Runtime → Bool → ℕ → Result PersistError Job
prepare r lock now = do
  guard lock pending_unavailable
  guard r.config.enabled writer_missing
  ok (record {
    old = r.durable;
    pending = take r.config.persistence_batch_size (filter (λ e. ltb now e.1.deadline) r.pending);
  })

-- The candidate for the next snapshot with the rest of `PersistedBatch`.
pub record Batch : Type 0 where
  pub candidate : Map IpAddr ActiveBlock
  pub consumed : List IpAddr
  pub activated : List PendingBlock
  pub capacity_overflow : Bool

abbrev pub block_for : IpAddr → PendingBlock → ℕ → ℕ → ActiveBlock
block_for ip proposal now wall = record {
  block = record {
    client_ip = ip;
    created_at_unix_seconds = wall;
    expires_at_unix_seconds = wall + block_seconds;
    rule = proposal.rule;
    observed_count = proposal.count;
  };
  deadline = now + seconds block_seconds;
}

abbrev pub consume : IpAddr → Batch → Batch
consume ip b = record b { consumed = b.consumed ++ (ip ∷ []) }

abbrev pub activate_one : IpAddr → PendingBlock → ℕ → ℕ → Batch → Batch
activate_one ip proposal now wall b = record {
  candidate = insert ip (block_for ip proposal now wall) b.candidate;
  consumed = b.consumed ++ (ip ∷ []);
  activated = b.activated ++ (proposal ∷ []);
  capacity_overflow = b.capacity_overflow;
}

-- The loop over the pending entries; a full candidate ends it.
unfoldable pub activate :
    BlockingConfig → ℕ → ℕ → Batch → List (IpAddr × PendingBlock) → Result PersistError Batch
activate config now wall b [] = ok b
activate config now wall b ((ip, proposal) ∷ rest) =
    let skipped = activate config now wall b rest in
    let known = activate config now wall (consume ip b) rest in
    let blocked = guard (ltb (wall + block_seconds) (2 ^ 64)) timestamp_overflow >>= λ _.
    activate config now wall (activate_one ip proposal now wall b) rest in
    if leb proposal.deadline now
    then skipped
    else if contains_key ip b.candidate || allowed config ip
    then known
    else if leb config.max_blocked_client_ips (length b.candidate)
    then ok (record b { capacity_overflow = true })
    else blocked

-- `PersistedBatch`: the snapshot to publish, if one was written.
pub record Outcome : Type 0 where
  pub snapshot : Option (Map IpAddr ActiveBlock)
  pub consumed : List IpAddr
  pub activated : List PendingBlock
  pub capacity_overflow : Bool

abbrev pub nothing_done : Outcome
nothing_done = record { snapshot = none; consumed = []; activated = []; capacity_overflow = false }

abbrev pub outcome_of : Batch → Option (Map IpAddr ActiveBlock) → Outcome
outcome_of b snapshot = record {
  snapshot = snapshot;
  consumed = b.consumed;
  activated = b.activated;
  capacity_overflow = b.capacity_overflow;
}

finish : Bool → (Map IpAddr ActiveBlock → Bool) → Batch → Result PersistError Outcome
finish must_write write b =
    if not (is_empty b.activated) || must_write
    then (guard (write b.candidate) write_failed >> ok (outcome_of b (some b.candidate)))
    else if b.capacity_overflow && is_empty b.consumed
    then err capacity_reached
    else ok (outcome_of b none)

-- The blocking task: `wall` is the wall clock, which may stand before the epoch, and `write` says
-- whether the file is replaced.
unfoldable pub transact :
    BlockingConfig
    → Job
    → Bool
    → ℕ
    → Option ℕ
    → (Map IpAddr ActiveBlock → Bool)
    → Result PersistError Outcome
unfolding finish
transact config job force_compaction now wall write =
    let expired = any (λ e. leb e.1.deadline now) job.old in
    let must_write = expired || force_compaction in
    if is_empty job.pending && not must_write
    then ok nothing_done
    else if not (is_empty job.pending)
        && leb config.max_blocked_client_ips (length job.old)
        && not must_write
    then err capacity_reached
    else (do
      seconds_now ← ok_or wall clock_before_epoch
      b ←
          activate config now seconds_now
            (record {
              candidate = retain (λ _ b. ltb now b.deadline) job.old;
              consumed = [];
              activated = [];
              capacity_overflow = false;
            })
            job.pending
      finish must_write write b)

unfoldable pub remove_all : List IpAddr → Map IpAddr PendingBlock → Map IpAddr PendingBlock
remove_all [] m = m
remove_all (ip ∷ ips) m = remove_all ips (remove ip m)

unfoldable pub consume_pending : Runtime → List IpAddr → Runtime
unfolding publish_temporary
consume_pending r ips = publish_temporary (record r { pending = remove_all ips r.pending })

abbrev pub count_overflow : Runtime → Runtime
count_overflow r = record r {
  counters = record r.counters { overflow = fetch_add r.counters.overflow 1 };
}

unfoldable pub publish_snapshot : Runtime → Option (Map IpAddr ActiveBlock) → Runtime
publish_snapshot r none = r
publish_snapshot r (some candidate) = record r { durable = candidate }

unfoldable pub count_outcome : Runtime → Outcome → Runtime
count_outcome r o =
    let counted = if o.capacity_overflow then count_overflow r else r in
    record counted {
      counters = record counted.counters {
        activated = fetch_add counted.counters.activated (length o.activated);
      };
    }

-- The commit of a finished task; `lock` says whether the pending table can be locked.
unfoldable pub commit :
    Runtime → Bool → Result PersistError Outcome → Runtime × Result PersistError (Unit {0})
unfolding publish_snapshot consume_pending count_outcome
commit r lock (err capacity_reached) = (count_overflow r, err capacity_reached)
commit r lock (err e) = (r, err e)
commit r lock (ok o) =
    let published = publish_snapshot r o.snapshot in
    if not (is_empty o.consumed) && not lock
    then (published, err pending_unavailable)
    else (let consumed =
          if is_empty o.consumed then published else consume_pending published o.consumed in
        (count_outcome consumed o, ok tt))
