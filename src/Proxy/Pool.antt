-- ===== src/Proxy/Pool.antt =====
-- src/http_proxy/pool.rs: the idle HTTP/1 connections, the exchanges and the activity of a pool. A
-- connection is a number, and whether its sender is closed is a function of it, as the call reads it.
-- The waits for capacity, the opening of connections and locks that a crashed thread left unusable are
-- left out.
pub mod Reuse
mod Tests
use edge_gateway.Prelude.{
  ℕ, ◌+◌, ◌-◌, ◌%◌, ◌^◌, String, Bool, true, false, not, ◌&&◌, ◌||◌, Option, none, some, List, [],
  ◌∷◌, filter, Result, ok, err, if◌then◌else◌, ltb, leb, length, ◌==◌, nat_eq,
}

-- The limits of the configuration that these functions read.
pub record PoolLimits : Type 0 where
  pub max_active_requests : ℕ
  pub max_idle_connections : ℕ
  pub idle_timeout : ℕ

-- The newest idle connection is the first; `active` counts the leases.
pub record UpstreamPool : Type 0 where
  pub config : PoolLimits
  pub active : ℕ
  pub idle_http1 : List (ℕ × ℕ)
  pub http2 : Option ℕ
  pub last_activity : ℕ
  pub reused : ℕ
  pub rejected : ℕ
  pub shutdown : Bool

unfoldable pub record_activity : ℕ → UpstreamPool → UpstreamPool
record_activity now p = record p { last_activity = now }

unfoldable pub begin_exchange : ℕ → UpstreamPool → UpstreamPool × Result String (Unit {0})
begin_exchange now p =
    if p.shutdown
    then (p, err "HTTP proxy shutting down")
    else if ltb p.active p.config.max_active_requests
    then (record_activity now (record p { active = p.active + 1 }), ok tt)
    else (record p { rejected = (p.rejected + 1) % 2 ^ 64 }, err "HTTP upstream capacity reached")

-- `since.elapsed() < idle_timeout && !sender.is_closed()`.
unfoldable pub is_usable : (ℕ → Bool) → ℕ → ℕ → ℕ × ℕ → Bool
is_usable closed now idle_timeout entry = ltb (now - entry.0) idle_timeout && not (closed entry.1)

-- The loop of `take_idle_http1`, which drops what it cannot use.
unfoldable pub pop_usable : (ℕ → Bool) → ℕ → ℕ → List (ℕ × ℕ) → List (ℕ × ℕ) × Option ℕ
pop_usable closed now idle_timeout [] = ([], none)
pop_usable closed now idle_timeout (entry ∷ idle) =
    let rest = pop_usable closed now idle_timeout idle in
    if is_usable closed now idle_timeout entry then (idle, some entry.1) else rest

unfoldable pub take_idle_http1 : (ℕ → Bool) → ℕ → UpstreamPool → UpstreamPool × Option ℕ
take_idle_http1 closed now p =
    let popped = pop_usable closed now p.config.idle_timeout p.idle_http1 in
    let left = record p { idle_http1 = popped.0 } in
    elim popped.1 [
      | none ↦ (left, none)
      | some connection ↦ (record left { reused = (p.reused + 1) % 2 ^ 64 }, some connection)
    ]

unfoldable pub return_http1 : (ℕ → Bool) → ℕ → ℕ → UpstreamPool → UpstreamPool
return_http1 closed now connection p =
    let q = record_activity now p in
    if p.shutdown || closed connection
    then q
    else if ltb (length p.idle_http1) p.config.max_idle_connections
    then record q { idle_http1 = (now, connection) ∷ p.idle_http1 }
    else q

unfoldable pub reap_idle : (ℕ → Bool) → ℕ → UpstreamPool → UpstreamPool
reap_idle closed now p =
    let usable = is_usable closed now p.config.idle_timeout in
    let kept = filter (λ entry. not p.shutdown && usable entry) p.idle_http1 in
    let idle_expired = leb p.config.idle_timeout (now - p.last_activity) in
    let drained = p.active == 0 && (idle_expired || p.config.max_idle_connections == 0) in
    record p { idle_http1 = kept; http2 = if p.shutdown || drained then none else p.http2 }

-- What `finish_http1` reads of a response body, with the connection that it takes out of it.
pub record PooledResponseBody : Type 0 where
  pub http1 : Option ℕ
  pub healthy : Bool
  pub is_end_stream : Bool
  pub upload_complete : Bool

unfoldable pub finish_http1 :
    (ℕ → Bool) → ℕ → PooledResponseBody → UpstreamPool → UpstreamPool × PooledResponseBody
finish_http1 closed now body p =
    let returned : UpstreamPool = elim body.http1 [
      | none ↦ p
      | some connection ↦
          if body.healthy && body.is_end_stream && body.upload_complete
          then return_http1 closed now connection p
          else p
    ] in
    (record_activity now returned, record body { http1 = none })
