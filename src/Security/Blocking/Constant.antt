-- ===== src/Security/Blocking/Constant.antt =====
-- src/security/ip_blocking.rs: no call changes the runtime's configuration.
use edge_gateway.Prelude.{ℕ, ◌≡◌, Bool, Result, arith}
use edge_gateway.Net.{IpAddr}
use edge_gateway.Security.Blocking.{
  Runtime, ResolvedClientAddress, ViolationRule, is_client_ip_blocked,
}
use edge_gateway.Security.Blocking.Violation.{
  Locks, queue_block, track_violation, record_client_protocol_violation,
}
use edge_gateway.Security.Blocking.Persist.{PersistError, Outcome, commit, publish_snapshot}
use edge_gateway.Security.Blocking.Manager.{
  ManagerState, RoundInput, clean_up, shutdown_round, after_persist, expire_pending,
}

pub config-queue_block :
    (r : Runtime) (locks : Locks) (address : ResolvedClientAddress) (rule : ViolationRule)
    (count now : ℕ)
    → (queue_block r locks address rule count now).config ≡ r.config
unfolding queue_block
config-queue_block r locks address rule count now = ground arith

config-track :
    (hash : IpAddr → ℕ) (r : Runtime) (locks : Locks) (address : ResolvedClientAddress)
    (rule : ViolationRule) (now : ℕ)
    → (track_violation hash r locks address rule now).config ≡ r.config
unfolding track_violation queue_block
config-track hash r locks address rule now = ground arith

pub config-record :
    (hash : IpAddr → ℕ) (r : Runtime) (locks : Locks) (address : ResolvedClientAddress)
    (rule : ViolationRule) (now : ℕ)
    → (record_client_protocol_violation hash r locks address rule now).config ≡ r.config
unfolding record_client_protocol_violation track_violation queue_block
config-record hash r locks address rule now = ground arith

pub config-read :
    (r : Runtime) (address : ResolvedClientAddress) (now : ℕ)
    → (is_client_ip_blocked r address now).0.config ≡ r.config
unfolding is_client_ip_blocked
config-read r address now = ground arith

pub config-clean_up :
    (r : Runtime) (s : ManagerState) (locks : RoundInput) (now : ℕ)
    → (clean_up r s locks now).0.config ≡ r.config
unfolding clean_up expire_pending
config-clean_up r s locks now = ground arith

pub config-commit :
    (r : Runtime) (lock : Bool) (o : Result PersistError Outcome)
    → (commit r lock o).0.config ≡ r.config
unfolding commit publish_snapshot
config-commit r lock o = ground arith

pub config-after_persist :
    (r : Runtime) (s : ManagerState) (o : Result PersistError (Unit {0})) (now : ℕ)
    → (after_persist r s o now).0.config ≡ r.config
unfolding after_persist
config-after_persist r s o now = ground arith

pub config-shutdown_round :
    (r : Runtime) (lock : Bool) (now : ℕ) → (shutdown_round r lock now).0.config ≡ r.config
unfolding shutdown_round
config-shutdown_round r lock now = ground arith
