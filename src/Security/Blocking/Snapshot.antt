-- ===== src/Security/Blocking/Snapshot.antt =====
-- src/security/ip_blocking.rs: the blocks of a snapshot that `persist_pending` writes.
use edge_gateway.Prelude.{
  ℕ, ◌<◌, ltb, ◌≡◌, Bool, true, false, some, List, [], ◌∷◌, ok, ◌⊎◌, Any, inl, inr, arith,
  Result-cases, ◌+◌, ◌*◌,
}
use edge_gateway.Prelude.Maps.{Map, IsMap, get, retain, get-insert, get-retain, contains_key}
use edge_gateway.Net.{IpAddr, ip_eq}
use edge_gateway.Security.Blocking.{PendingBlock, ActiveBlock, BlockingConfig, allowed}
use edge_gateway.Security.Blocking.Persist.{
  Job, Batch, block_for, activate_one, consume, activate, Outcome, transact,
}

module _ (config : BlockingConfig) (now wall : ℕ) (ip : IpAddr) where
  -- The block is one of a day, from now on by both clocks, for the entry's rule and count.
  abbrev pub IsDayOf : PendingBlock → ActiveBlock → Type 0
  IsDayOf proposal a =
      (a.block.client_ip ≡ ip)
      × (a.block.created_at_unix_seconds ≡ wall)
      × (a.block.expires_at_unix_seconds ≡ wall + 86400)
      × (a.block.rule ≡ proposal.rule)
      × (a.block.observed_count ≡ proposal.count)
      × (a.deadline ≡ now + 86400 * 1000000000)

  -- The block comes from a pending entry of the client that had not run out.
  abbrev pub IsNew : List (IpAddr × PendingBlock) → ActiveBlock → Type 0
  IsNew pending a =
      (allowed config ip ≡ false)
      × Any (λ e. (e.0 ≡ ip) × (now < e.1.deadline) × IsDayOf e.1 a) pending

  activate_keeps :
      (b b' : Batch) (entries : List (IpAddr × PendingBlock)) (a : ActiveBlock)
      → activate config now wall b entries ≡ ok b'
      → get ip b.candidate ≡ some a
      → get ip b'.candidate ≡ some a
  unfolding activate contains_key
  activate_keeps b b' [] a e h = ground arith
  activate_keeps b b' ((j, proposal) ∷ rest) a e h = ground (
    arith,
    activate_keeps b b' rest a,
    activate_keeps (consume j b) b' rest a,
    activate_keeps (activate_one j proposal now wall b) b' rest a,
    get-insert j ip (block_for j proposal now wall) b.candidate,
    ip_eq.beq_iff j ip,
  )

  activate_adds :
      (b b' : Batch) (entries : List (IpAddr × PendingBlock)) (a : ActiveBlock)
      → activate config now wall b entries ≡ ok b'
      → get ip b'.candidate ≡ some a
      → (get ip b.candidate ≡ some a) ⊎ IsNew entries a
  unfolding activate contains_key
  activate_adds b b' [] a e h = ground arith
  activate_adds b b' ((j, proposal) ∷ rest) a e h = ground (
    arith,
    activate_adds b b' rest a,
    activate_adds (consume j b) b' rest a,
    activate_adds (activate_one j proposal now wall b) b' rest a,
    get-insert j ip (block_for j proposal now wall) b.candidate,
    ip_eq.beq_iff j ip,
  )

-- What a snapshot says of a client, against the snapshot that the task started from.
abbrev pub IsSuccessor :
    BlockingConfig → Job → ℕ → ℕ → Map IpAddr ActiveBlock → IpAddr → ActiveBlock → Type 0
IsSuccessor config job now wall m ip a =
    (get ip job.old ≡ some a → now < a.deadline → get ip m ≡ some a)
    × (get ip m ≡ some a
        → ((get ip job.old ≡ some a) × (now < a.deadline)) ⊎ IsNew config now wall ip job.pending a)

started : Job → ℕ → Batch
started job now = record {
  candidate = retain (λ _ b. ltb now b.deadline) job.old;
  consumed = [];
  activated = [];
  capacity_overflow = false;
}

activated-IsSuccessor :
    (config : BlockingConfig) (job : Job) (now wall : ℕ) (b : Batch) (ip : IpAddr) (a : ActiveBlock)
    → IsMap job.old
    → activate config now wall (started job now) job.pending ≡ ok b
    → IsSuccessor config job now wall b.candidate ip a
unfolding started
activated-IsSuccessor config job now wall b ip a unique e = (
  (λ h live. ground (
    arith,
    get-retain (λ _ b. ltb now b.deadline) ip job.old unique,
    activate_keeps config now wall ip (started job now) b job.pending a e,
  )),
  (λ h. ground (
    arith,
    get-retain (λ _ b. ltb now b.deadline) ip job.old unique,
    activate_adds config now wall ip (started job now) b job.pending a e h,
  )),
)

-- When the persistence task, started from blocks with one entry a client, ends with a snapshot, then
-- that snapshot was written to the file; it keeps every block that had not run out; and each of its
-- blocks is such a kept one, or belongs to a client that is not on the allow list, with the rule and the
-- count of a pending entry of it that had not run out, from the wall clock's second for 86400 seconds, and
-- with a deadline as much after the monotonic clock's instant.
pub snapshot-IsSuccessor :
    (config : BlockingConfig) (job : Job) (force : Bool) (now wall : ℕ)
    (write : Map IpAddr ActiveBlock → Bool) (o : Outcome) (m : Map IpAddr ActiveBlock)
    → IsMap job.old
    → transact config job force now (some wall) write ≡ ok o
    → o.snapshot ≡ some m
    → (write m ≡ true) × ((ip : IpAddr) (a : ActiveBlock) → IsSuccessor config job now wall m ip a)
unfolding transact started
snapshot-IsSuccessor config job force now wall write o m unique e written =
    elim (Result-cases (activate config now wall (started job now) job.pending)) [
      | inr (x, failed) ↦ ground arith
      | inl (b, done) ↦
          let same : b.candidate ≡ m = ground arith in
          (
            ground arith,
            λ ip a. rw same at (activated-IsSuccessor config job now wall b ip a unique done),
          )
    ]
