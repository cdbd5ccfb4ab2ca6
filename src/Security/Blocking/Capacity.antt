-- ===== src/Security/Blocking/Capacity.antt =====
-- src/security/ip_blocking.rs: the shards' shares of `max_tracked_client_ips`.
use edge_gateway.Prelude.{
  ℕ, zero, suc, ◌+◌, ◌*◌, ◌/◌, ◌%◌, ◌≤◌, ◌≡◌, List, [], ◌∷◌, arith, length, min,
}
use edge_gateway.Prelude.Maps.{Map}
use edge_gateway.Net.{IpAddr}
use edge_gateway.Security.Blocking.{ClientWindow, BlockingConfig, Runtime, shards}
use edge_gateway.Security.Blocking.Violation.{capacity}
use edge_gateway.Security.Blocking.Invariant.{IsValid, WindowsFit}

-- How many clients all shards track.
abbrev pub tracked : List (Map IpAddr ClientWindow) → ℕ
tracked [] = 0
tracked (s ∷ ss) = length s + tracked ss

-- The shares of `n` shards from the `i`-th on.
shares : BlockingConfig → ℕ → ℕ → ℕ
shares config i zero = 0
shares config i (suc n) = capacity config i + shares config (suc i) n

tracked-le-shares :
    (config : BlockingConfig) (i : ℕ) (ss : List (Map IpAddr ClientWindow))
    → WindowsFit config i ss
    → tracked ss ≤ shares config i (length ss)
unfolding shares
tracked-le-shares config i [] h = omega arith
tracked-le-shares config i (s ∷ ss) h = omega (arith, tracked-le-shares config (suc i) ss h.1)

-- `n` shards from `i` on have n quotients, and the remainder's share of the first ones.
shares_lem :
    (config : BlockingConfig) (i n : ℕ)
    → shares config i n + min i (config.max_tracked_client_ips % shards)
      ≡ n * (config.max_tracked_client_ips / shards)
        + min (i + n) (config.max_tracked_client_ips % shards)
unfolding shares capacity
shares_lem config i zero = omega arith
shares_lem config i (suc n) = ground (arith, shares_lem config (suc i) n)

-- In every valid state the shards together track at most `max_tracked_client_ips` clients.
pub tracked_bounded :
    (r : Runtime) → IsValid r → tracked r.windows ≤ r.config.max_tracked_client_ips
tracked_bounded r v =
    let total = shares_lem r.config 0 shards in
    let all = tracked-le-shares r.config 0 r.windows v.windows_fit in
    let n : length r.windows ≡ shards = v.sharded in
    let all' : tracked r.windows ≤ shares r.config 0 shards = rw n at all in
    omega (arith, total, all')
