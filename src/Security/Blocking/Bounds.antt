-- ===== src/Security/Blocking/Bounds.antt =====
-- src/security/ip_blocking.rs: what holds of the runtime at every moment after `load`.
use edge_gateway.Prelude.{ℕ, zero, suc, ◌≤◌, ◌≡◌, refl, ap, none, length, arith}
use edge_gateway.Prelude.Maps.{Map}
use edge_gateway.Net.{IpAddr}
use edge_gateway.Security.Blocking.{
  BlockingConfig, ActiveBlock, Runtime, load, empty_shards, shards, deadlines,
}
use edge_gateway.Security.Blocking.Manager.{start_manager}
use edge_gateway.Security.Blocking.Invariant.{IsValid, WindowsFit, BlocksFit}
use edge_gateway.Security.Blocking.Capacity.{tracked, tracked_bounded}
use edge_gateway.Security.Blocking.Reach.{System, Reaches, IsSound, Reaches-IsSound}

empty_shards-fit : (config : BlockingConfig) (i n : ℕ) → WindowsFit config i (empty_shards n)
unfolding empty_shards
empty_shards-fit config i zero = tt
empty_shards-fit config i (suc n) = (omega arith, empty_shards-fit config (suc i) n)

length-empty_shards : (n : ℕ) → length (empty_shards n) ≡ n
unfolding empty_shards
length-empty_shards zero = refl
length-empty_shards (suc n) = ap suc (length-empty_shards n)

pub load-IsValid :
    (config : BlockingConfig) (blocks : Map IpAddr ActiveBlock)
    → BlocksFit config blocks
    → IsValid (load config blocks)
unfolding load
load-IsValid config blocks h = record {
  published = refl;
  pending_map = tt;
  pending_bounded = omega arith;
  blocks_fit = h;
  windows_fit = empty_shards-fit config 0 shards;
  sharded = length-empty_shards shards;
}

-- A runtime that has just been loaded, and its manager at its start.
abbrev pub boot : BlockingConfig → Map IpAddr ActiveBlock → ℕ → System
boot config blocks now = record {
  runtime = load config blocks;
  manager = start_manager now;
  job = none;
}

-- The limits of the configuration, and the agreement of the two views of the pending clients.
abbrev pub WithinLimits : BlockingConfig → Runtime → Type 0
WithinLimits config r =
    (tracked r.windows ≤ config.max_tracked_client_ips)
    × (length r.pending ≤ config.max_pending_activations)
    × (length r.durable ≤ config.max_blocked_client_ips)
    × (r.temporary ≡ deadlines r.pending)

sound_limits :
    (config : BlockingConfig) (s : System) → IsSound config s → WithinLimits config s.runtime
sound_limits config s h =
    let v = h.valid in
    let limits : WithinLimits s.runtime.config s.runtime =
      (tracked_bounded s.runtime v, v.pending_bounded, v.blocks_fit.1, v.published) in
    rw h.same at limits

-- When the loaded blocks are one entry a client and within `max_blocked_client_ips`, then after any
-- sequence of violations, reads, manager rounds, persistence tasks and shutdown steps, in any order
-- and with any clock readings, lock failures and write failures, the runtime tracks at most
-- `max_tracked_client_ips` clients, holds at most `max_pending_activations` pending ones and at most
-- `max_blocked_client_ips` blocks, and its published temporary restrictions are exactly the
-- deadlines of the pending clients.
pub limits_hold :
    (hash : IpAddr → ℕ) (config : BlockingConfig) (blocks : Map IpAddr ActiveBlock) (now : ℕ)
    (s : System)
    → BlocksFit config blocks
    → Reaches hash (boot config blocks now) s
    → WithinLimits config s.runtime
unfolding load
limits_hold hash config blocks now s fits reached =
    let first : IsSound config (boot config blocks now) = record {
      same = refl;
      valid = load-IsValid config blocks fits;
      task = tt;
    } in
    sound_limits config s (Reaches-IsSound hash config (boot config blocks now) s first reached)
