-- ===== src/Security/Blocking/Commit.antt =====
-- src/security/ip_blocking.rs: the blocking task and its commit keep the state within its bounds.
use edge_gateway.Prelude.{
  ℕ, ◌≤◌, ◌≡◌, Bool, Option, none, some, List, [], ◌∷◌, arith, length, ok, err, Result-cases, inl,
  inr, ltb, Option-cases, false,
}
use edge_gateway.Prelude.Maps.{
  Map, IsMap, remove, retain, length-insert-le, insert-IsMap, remove-IsMap, retain-IsMap,
  length-remove-le, length-retain-le,
}
use edge_gateway.Net.{IpAddr, ip_eq}
use edge_gateway.Security.Blocking.{PendingBlock, ActiveBlock, BlockingConfig, Runtime}
use edge_gateway.Security.Blocking.Persist.{
  Job, Batch, block_for, activate_one, consume, activate, Outcome, publish_snapshot, transact,
  remove_all, consume_pending, commit, PersistError, capacity_reached, pending_unavailable,
  clock_before_epoch, timestamp_overflow, write_failed, writer_missing,
}
use edge_gateway.Security.Blocking.Invariant.{IsValid, BlocksFit, counters-IsValid}

module _ (config : BlockingConfig) (now wall : ℕ) where
  activate-fits :
      (b b' : Batch) (entries : List (IpAddr × PendingBlock))
      → BlocksFit config b.candidate
      → activate config now wall b entries ≡ ok b'
      → BlocksFit config b'.candidate
  unfolding activate
  activate-fits b b' [] h e = ground arith
  activate-fits b b' ((ip, proposal) ∷ rest) h e = ground (
    arith,
    activate-fits b b' rest h,
    activate-fits (consume ip b) b' rest h,
    activate-fits (activate_one ip proposal now wall b) b' rest,
    insert-IsMap ip (block_for ip proposal now wall) b.candidate h.0,
    length-insert-le ip (block_for ip proposal now wall) b.candidate,
  )

-- The snapshot of an outcome is within the configured number of blocks.
abbrev pub OutcomeFits : BlockingConfig → Outcome → Type 0
OutcomeFits config o = elim o.snapshot [ none ↦ Unit | some m ↦ BlocksFit config m ]

pub transact-fits :
    (config : BlockingConfig) (job : Job) (force : Bool) (now : ℕ) (wall : Option ℕ)
    (write : Map IpAddr ActiveBlock → Bool) (o : Outcome)
    → BlocksFit config job.old
    → transact config job force now wall write ≡ ok o
    → OutcomeFits config o
unfolding transact
transact-fits config job force now wall write o h e = elim (Option-cases wall) [
  | inl none_given ↦ ground arith
  | inr (w, given) ↦
      let start : Batch = record {
        candidate = retain (λ _ b. ltb now b.deadline) job.old;
        consumed = [];
        activated = [];
        capacity_overflow = false;
      } in
      elim (Result-cases (activate config now w start job.pending)) [
        | inr (x, failed) ↦ ground arith
        | inl (b, activated) ↦ ground (
          arith,
          activate-fits config now w start b job.pending,
          retain-IsMap (λ _ b. ltb now b.deadline) job.old h.0,
          length-retain-le (λ _ b. ltb now b.deadline) job.old,
        )
      ]
]

remove_all-IsMap :
    (ips : List IpAddr) (m : Map IpAddr PendingBlock) → IsMap m → IsMap (remove_all ips m)
unfolding remove_all
remove_all-IsMap [] m h = h
remove_all-IsMap (ip ∷ ips) m h = remove_all-IsMap ips (remove ip m) (remove-IsMap ip m h)

length-remove_all-le :
    (ips : List IpAddr) (m : Map IpAddr PendingBlock) → length (remove_all ips m) ≤ length m
unfolding remove_all
length-remove_all-le [] m = omega arith
length-remove_all-le (ip ∷ ips) m =
    omega (arith, length-remove_all-le ips (remove ip m), length-remove-le ip m)

commit_error-IsValid :
    (r : Runtime) (lock : Bool) (e : PersistError) → IsValid r → IsValid (commit r lock (err e)).0
unfolding commit
commit_error-IsValid r lock capacity_reached v = counters-IsValid r _ v
commit_error-IsValid r lock pending_unavailable v = v
commit_error-IsValid r lock clock_before_epoch v = v
commit_error-IsValid r lock timestamp_overflow v = v
commit_error-IsValid r lock write_failed v = v
commit_error-IsValid r lock writer_missing v = v

published-IsValid :
    (r : Runtime) (o : Outcome)
    → OutcomeFits r.config o
    → IsValid r
    → IsValid (publish_snapshot r o.snapshot)
unfolding publish_snapshot
published-IsValid r o h v = elim (Option-cases o.snapshot) [
  | inl e ↦ rw e v
  | inr (m, e) ↦
      let fits : BlocksFit r.config m = rw e at h in
      rw e (record {
        published = v.published;
        pending_map = v.pending_map;
        pending_bounded = v.pending_bounded;
        blocks_fit = fits;
        windows_fit = v.windows_fit;
        sharded = v.sharded;
      })
]

consumed-IsValid : (r : Runtime) (ips : List IpAddr) → IsValid r → IsValid (consume_pending r ips)
unfolding consume_pending
consumed-IsValid r ips v =
    ground (arith, remove_all-IsMap ips r.pending v.pending_map, length-remove_all-le ips r.pending)

commit_done-IsValid :
    (r : Runtime) (lock : Bool) (o : Outcome)
    → OutcomeFits r.config o
    → IsValid r
    → IsValid (commit r lock (ok o)).0
unfolding commit
commit_done-IsValid r lock o h v =
    let valid = published-IsValid r o h v in
    ground (arith, valid, consumed-IsValid (publish_snapshot r o.snapshot) o.consumed valid)

-- A commit of an outcome that fits keeps the state valid, whatever ran since the job was prepared.
pub commit-IsValid :
    (r : Runtime) (lock : Bool) (job : Job) (force : Bool) (now : ℕ) (wall : Option ℕ)
    (write : Map IpAddr ActiveBlock → Bool)
    → BlocksFit r.config job.old
    → IsValid r
    → IsValid (commit r lock (transact r.config job force now wall write)).0
commit-IsValid r lock job force now wall write h v =
    elim (Result-cases (transact r.config job force now wall write)) [
      | inr (x, failed) ↦ rw failed (commit_error-IsValid r lock x v)
      | inl (o, done) ↦ rw done (
          commit_done-IsValid r lock o (transact-fits r.config job force now wall write o h done) v)
    ]
