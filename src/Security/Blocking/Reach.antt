-- ===== src/Security/Blocking/Reach.antt =====
-- src/security/ip_blocking.rs: the runtime under any interleaving of its callers and its manager.
-- `persist_pending` is two steps, since callers run while its task does; so is a violation that
-- crosses a threshold, between the lock of its shard and the lock of the pending table.
use edge_gateway.Prelude.{ℕ, ◌≡◌, Option, none, some, Bool, ok, err, arith, ◌∙◌, false}
use edge_gateway.Prelude.Maps.{Map}
use edge_gateway.Net.{IpAddr}
use edge_gateway.Security.Blocking.{
  Runtime, BlockingConfig, ResolvedClientAddress, ViolationRule, ActiveBlock, is_client_ip_blocked,
}
use edge_gateway.Security.Blocking.Violation.{Locks, queue_block, record_client_protocol_violation}
use edge_gateway.Security.Blocking.Persist.{Job, PersistError, prepare, transact, commit}
use edge_gateway.Security.Blocking.Manager.{
  ManagerState, RoundInput, clean_up, begin_shutdown, shutdown_round, after_persist,
}
use edge_gateway.Security.Blocking.Invariant.{
  IsValid, BlocksFit, record-IsValid, read-IsValid, clean_up-IsValid, shutdown_round-IsValid,
  queue_block-IsValid, flags-IsValid, after_persist-IsValid,
}
use edge_gateway.Security.Blocking.Commit.{commit-IsValid}
use edge_gateway.Security.Blocking.Constant.{
  config-record, config-queue_block, config-read, config-clean_up, config-commit,
  config-after_persist, config-shutdown_round,
}

-- The shared state with the manager's variables and its task, if one runs.
pub record System : Type 0 where
  pub runtime : Runtime
  pub manager : ManagerState
  pub job : Option Job

-- The task has ended: its outcome is committed, and the manager plans its next attempt.
abbrev pub end_persist_of :
    System → Job → Bool → Bool → ℕ → ℕ → Option ℕ → (Map IpAddr ActiveBlock → Bool) → System
end_persist_of s job lock force now later wall write =
    let done = commit s.runtime lock (transact s.runtime.config job force now wall write) in
    let next = after_persist done.0 s.manager done.1 later in
    record { runtime = next.0; manager = next.1; job = none }

-- One step of a caller or of the manager, with whatever instants and outcomes of locks and writes.
pub data Step (hash : IpAddr → ℕ) (s : System) : System → Type 0 where
  violation :
      (locks : Locks) (address : ResolvedClientAddress) (rule : ViolationRule) (now : ℕ)
      → Step hash s (record s {
        runtime = record_client_protocol_violation hash s.runtime locks address rule now;
      })
  crossing :
      (locks : Locks) (address : ResolvedClientAddress) (rule : ViolationRule) (count now : ℕ)
      → Step hash s (record s { runtime = queue_block s.runtime locks address rule count now })
  read :
      (address : ResolvedClientAddress) (now : ℕ)
      → Step hash s (record s { runtime = (is_client_ip_blocked s.runtime address now).0 })
  round :
      (locks : RoundInput) (now : ℕ)
      → Step hash s (record s {
        runtime = (clean_up s.runtime s.manager locks now).0;
        manager = (clean_up s.runtime s.manager locks now).1;
      })
  begin_persist :
      (lock : Bool) (now : ℕ) (job : Job)
      → prepare s.runtime lock now ≡ ok job
      → Step hash s (record s { job = some job })
  refuse_persist :
      (lock : Bool) (now later : ℕ) (e : PersistError)
      → prepare s.runtime lock now ≡ err e
      → Step hash s (record s {
        runtime = (after_persist s.runtime s.manager (err e) later).0;
        manager = (after_persist s.runtime s.manager (err e) later).1;
      })
  end_persist :
      (job : Job) (lock force : Bool) (now later : ℕ) (wall : Option ℕ)
      (write : Map IpAddr ActiveBlock → Bool)
      → s.job ≡ some job
      → Step hash s (end_persist_of s job lock force now later wall write)
  close : Step hash s (record s { runtime = begin_shutdown s.runtime })
  last_round :
      (lock : Bool) (now : ℕ)
      → Step hash s (record s { runtime = (shutdown_round s.runtime lock now).0 })

pub data Reaches (hash : IpAddr → ℕ) (s : System) : System → Type 0 where
  start : Reaches hash s s
  then_step : (t u : System) → Reaches hash s t → Step hash t u → Reaches hash s u

-- The snapshot that a running task started from is within the configured number of blocks.
abbrev JobFits : BlockingConfig → Option Job → Type 0
JobFits config none = Unit
JobFits config (some job) = BlocksFit config job.old

-- What holds of the system at every moment.
pub record IsSound (config : BlockingConfig) (s : System) : Type 0 where
  pub same : s.runtime.config ≡ config
  pub valid : IsValid s.runtime
  pub task : JobFits config s.job

persist-IsSound :
    (config : BlockingConfig) (s : System) (job : Job) (lock force : Bool) (now later : ℕ)
    (wall : Option ℕ) (write : Map IpAddr ActiveBlock → Bool)
    → s.job ≡ some job
    → IsSound config s
    → IsSound config (end_persist_of s job lock force now later wall write)
persist-IsSound config s job lock force now later wall write e h =
    let outcome = transact s.runtime.config job force now wall write in
    let done = commit s.runtime lock outcome in
    let fits : BlocksFit config job.old = rw e at h.task in
    let fits' : BlocksFit s.runtime.config job.old = rw h.same fits in
    record {
      same =
          config-after_persist done.0 s.manager done.1 later
          ∙ config-commit s.runtime lock outcome
          ∙ h.same;
      valid =
          after_persist-IsValid done.0 s.manager done.1 later
            (commit-IsValid s.runtime lock job force now wall write fits' h.valid);
      task = tt;
    }

prepare-fits :
    (config : BlockingConfig) (s : System) (lock : Bool) (now : ℕ) (job : Job)
    → prepare s.runtime lock now ≡ ok job
    → IsSound config s
    → BlocksFit config job.old
unfolding prepare
prepare-fits config s lock now job e h =
    let fits : BlocksFit config s.runtime.durable = rw h.same at h.valid.blocks_fit in
    let same : s.runtime.durable ≡ job.old = ground arith in rw same at fits

Step-IsSound :
    (hash : IpAddr → ℕ) (config : BlockingConfig) (s t : System)
    → Step hash s t
    → IsSound config s
    → IsSound config t
unfolding begin_shutdown
Step-IsSound hash config s t (violation locks address rule now) h = record {
  same = config-record hash s.runtime locks address rule now ∙ h.same;
  valid = record-IsValid hash s.runtime locks address rule now h.valid;
  task = h.task;
}
Step-IsSound hash config s t (crossing locks address rule count now) h = record {
  same = config-queue_block s.runtime locks address rule count now ∙ h.same;
  valid = queue_block-IsValid s.runtime locks address rule count now h.valid;
  task = h.task;
}
Step-IsSound hash config s t (read address now) h = record {
  same = config-read s.runtime address now ∙ h.same;
  valid = read-IsValid s.runtime address now h.valid;
  task = h.task;
}
Step-IsSound hash config s t (round locks now) h = record {
  same = config-clean_up s.runtime s.manager locks now ∙ h.same;
  valid = clean_up-IsValid s.runtime s.manager locks now h.valid;
  task = h.task;
}
Step-IsSound hash config s t (begin_persist lock now job e) h = record {
  same = h.same;
  valid = h.valid;
  task = prepare-fits config s lock now job e h;
}
Step-IsSound hash config s t (refuse_persist lock now later e f) h = record {
  same = config-after_persist s.runtime s.manager (err e) later ∙ h.same;
  valid = after_persist-IsValid s.runtime s.manager (err e) later h.valid;
  task = h.task;
}
Step-IsSound hash config s t (end_persist job lock force now later wall write e) h =
    persist-IsSound config s job lock force now later wall write e h
Step-IsSound hash config s t close h = record {
  same = h.same;
  valid = flags-IsValid s.runtime false s.runtime.notified h.valid;
  task = h.task;
}
Step-IsSound hash config s t (last_round lock now) h = record {
  same = config-shutdown_round s.runtime lock now ∙ h.same;
  valid = shutdown_round-IsValid s.runtime lock now h.valid;
  task = h.task;
}

-- From a sound state, every order of steps leads to sound states.
pub Reaches-IsSound :
    (hash : IpAddr → ℕ) (config : BlockingConfig) (s t : System)
    → IsSound config s
    → Reaches hash s t
    → IsSound config t
Reaches-IsSound hash config s t h start = h
Reaches-IsSound hash config s u h (then_step t u' reached one) =
    Step-IsSound hash config t u one (Reaches-IsSound hash config s t h reached)
