-- ===== src/Security/Persistence/Cycle.antt =====
-- src/security/ip_blocking.rs and src/security/ip_blocking_persistence.rs: a snapshot of the persistence
-- task, written to the file and loaded by the next run.
mod Tests
use edge_gateway.Prelude.{
  ℕ, ◌≤◌, ◌<◌, ◌≡◌, Bool, Option, some, List, ok, err, length, All, Any, inl, inr, arith, nat_eq,
  [], ◌∷◌, ap,
}
use edge_gateway.Prelude.Text.{Text}
use edge_gateway.Prelude.Maps.{Map, get, IsMap}
use edge_gateway.Net.{IpAddr, ip_eq}
use edge_gateway.Security.Network.{normalize_ip}
use edge_gateway.Security.Blocking.{BlockingConfig, PendingBlock, ActiveBlock, block_seconds}
use edge_gateway.Security.Blocking.Invariant.{BlocksFit}
use edge_gateway.Security.Blocking.Commit.{transact-fits}
use edge_gateway.Security.Blocking.Persist.{Job, Outcome, transact}
use edge_gateway.Security.Blocking.Snapshot.{IsDayOf, IsNew, IsSuccessor, snapshot-IsSuccessor}
use edge_gateway.Security.Persistence.{BlockFile, load_client_ip_blocklist, written_state}
use edge_gateway.Security.Persistence.Rows.{IsWritable}
use edge_gateway.Security.Persistence.Restored.{IsRestored, load-IsRestored}
use edge_gateway.Security.Persistence.Written.{restarted, load-written}

-- Each block is a whole day for its own normal address, and began by this second.
abbrev pub IsBlocklist : ℕ → Map IpAddr ActiveBlock → Type 0
IsBlocklist wall m = (ip : IpAddr) (a : ActiveBlock) → get ip m ≡ some a → IsWritable wall ip a

-- A pending entry is for a normal address and counts a violation.
abbrev pub IsQueued : IpAddr × PendingBlock → Type 0
IsQueued e = (normalize_ip e.0 ≡ e.0) × (0 < e.1.count)

new-IsWritable :
    (config : BlockingConfig) (now wall : ℕ) (ip : IpAddr) (a : ActiveBlock)
    (pending : List (IpAddr × PendingBlock))
    → All IsQueued pending
    → Any (λ e. (e.0 ≡ ip) × (now < e.1.deadline) × IsDayOf config now wall ip e.1 a) pending
    → IsWritable wall ip a
new-IsWritable config now wall ip a [] q n = elim n [ ]
new-IsWritable config now wall ip a (e ∷ pending) q (inl (own, live, day)) =
    ground (arith, q.0, ap normalize_ip own)
new-IsWritable config now wall ip a (e ∷ pending) q (inr more) =
    new-IsWritable config now wall ip a pending q.1 more

later-IsWritable :
    (wall later : ℕ) (ip : IpAddr) (a : ActiveBlock)
    → wall ≤ later
    → IsWritable wall ip a
    → IsWritable later ip a
later-IsWritable wall later ip a h w = (w.0, w.1, w.2, w.3, omega (arith, w.4))

snapshot-IsBlocklist :
    (config : BlockingConfig) (job : Job) (now wall : ℕ) (m : Map IpAddr ActiveBlock)
    → IsBlocklist wall job.old
    → All IsQueued job.pending
    → ((ip : IpAddr) (a : ActiveBlock) → IsSuccessor config job now wall m ip a)
    → IsBlocklist wall m
snapshot-IsBlocklist config job now wall m old queued successor ip a found =
    elim ((successor ip a).1 found) [
      | inl (kept, live) ↦ old ip a kept
      | inr (free, new) ↦ new-IsWritable config now wall ip a job.pending queued new
    ]

module _ (parse : Text → Option BlockFile) (print : BlockFile → Text) where
  -- What a state file gives is such a map.
  pub load-IsBlocklist :
      (maximum wall now : ℕ) (content : Option Text) (out : Map IpAddr ActiveBlock)
      → load_client_ip_blocklist parse print maximum wall now content ≡ ok out
      → IsBlocklist wall out
  load-IsBlocklist maximum wall now content out h ip a found =
      let r = (load-IsRestored parse print maximum wall now content out h).2 ip a found in
      ground (arith, r)

  -- With a format that reads back what it writes: where the persistence task starts from blocks within
  -- the configured number that are whole days for their own normal addresses, as a loaded file gives
  -- them, and from pending entries that are for normal addresses and count a violation, its snapshot is
  -- such a map again; and if it is written, the next run, with the same number configured and a wall
  -- clock that was not set back, loads from it exactly the blocks whose deadline had not passed at the
  -- write and whose end has not passed on the wall clock, with the same records.
  pub load-snapshot :
      ((file : BlockFile) → parse (print file) ≡ some file)
      → (config : BlockingConfig) (job : Job) (force : Bool) (now wall : ℕ)
      → (write : Map IpAddr ActiveBlock → Bool) (o : Outcome) (m : Map IpAddr ActiveBlock)
      → (written restart_wall restart : ℕ) (bytes : Text) → BlocksFit config job.old
      → IsBlocklist wall job.old
      → All IsQueued job.pending
      → transact config job force now (some wall) write ≡ ok o
      → o.snapshot ≡ some m
      → wall ≤ restart_wall
      → written_state parse print written m ≡ ok bytes
      → IsBlocklist wall m
        × ((out : Map IpAddr ActiveBlock) × (load_client_ip_blocklist parse print
                config.max_blocked_client_ips restart_wall restart
                (some bytes)
              ≡ ok out)
            × ((ip : IpAddr) → get ip out ≡ restarted restart_wall written restart (get ip m)))
  load-snapshot round config job force now wall write o m written restart_wall restart bytes fit old
        queued done snap order saved =
      let successor =
        (snapshot-IsSuccessor config job force now wall write o m fit.0 done snap).1 in
      let all = snapshot-IsBlocklist config job now wall m old queued successor in
      let bounded = transact-fits config job force now (some wall) write o fit done in
      let fits : BlocksFit config m = rw snap at bounded in
      (
        all,
        load-written parse print round config.max_blocked_client_ips restart_wall written restart m
            bytes fits.0 fits.1
            (λ ip a found. later-IsWritable wall restart_wall ip a order (all ip a found)) saved,
      )
