-- ===== src/Proxy/Pool/Reuse.antt =====
-- src/http_proxy/pool.rs: which connections are idle, behind any run of the operations.
use edge_gateway.Prelude.{
  ℕ, ◌≤◌, ◌≡◌, refl, Bool, true, false, not, ◌&&◌, ◌||◌, none, some, List, [], ◌∷◌, filter, any,
  length, ◌==◌, nat_eq, arith, ◌-◌, ◌∙◌,
}
use edge_gateway.Proxy.Pool.{
  UpstreamPool, PooledResponseBody, record_activity, begin_exchange, is_usable, pop_usable,
  take_idle_http1, return_http1, reap_idle, finish_http1,
}

-- A call, or the end of a lease, or of the whole proxy.
pub data Event : Type 0 where
  began : ℕ → Event
  ended cancelled : Event
  took reaped : (ℕ → Bool) → ℕ → Event
  finished : (ℕ → Bool) → ℕ → PooledResponseBody → Event

abbrev pub apply : Event → UpstreamPool → UpstreamPool
apply (began now) p = (begin_exchange now p).0
apply ended p = record p { active = p.active - 1 }
apply cancelled p = record p { shutdown = true }
apply (took closed now) p = (take_idle_http1 closed now p).0
apply (reaped closed now) p = reap_idle closed now p
apply (finished closed now body) p = (finish_http1 closed now body p).0

-- The pool behind the events, the last one first.
abbrev pub after : UpstreamPool → List Event → UpstreamPool
after p [] = p
after p (e ∷ earlier) = apply e (after p earlier)

abbrev pub is_idle : ℕ → List (ℕ × ℕ) → Bool
is_idle connection idle = any (λ entry. entry.1 == connection) idle

-- The event is the end of a whole and healthy exchange on the connection.
abbrev pub ends_well : ℕ → Event → Bool
ends_well connection (began now) = false
ends_well connection ended = false
ends_well connection cancelled = false
ends_well connection (took closed now) = false
ends_well connection (reaped closed now) = false
ends_well connection (finished closed now body) = elim body.http1 [
  | none ↦ false
  | some c ↦
      c == connection
      && not (closed c)
      && body.healthy
      && body.is_end_stream
      && body.upload_complete
]

pop_usable_lem :
    (closed : ℕ → Bool) (now timeout c : ℕ) (idle : List (ℕ × ℕ))
    → (length (pop_usable closed now timeout idle).0 ≤ length idle)
      × (is_idle c (pop_usable closed now timeout idle).0 ≡ true → is_idle c idle ≡ true)
unfolding pop_usable
pop_usable_lem closed now timeout c [] = (omega arith, λ h. h)
pop_usable_lem closed now timeout c (entry ∷ idle) =
    ground (arith, pop_usable_lem closed now timeout c idle)

filter_lem :
    (test : ℕ × ℕ → Bool) (c : ℕ) (idle : List (ℕ × ℕ))
    → (length (filter test idle) ≤ length idle)
      × (is_idle c (filter test idle) ≡ true → is_idle c idle ≡ true)
filter_lem test c [] = (omega arith, λ h. h)
filter_lem test c (entry ∷ idle) = ground (arith, filter_lem test c idle)

abbrev Goes : ℕ → Event → UpstreamPool → Type 0
Goes c e p =
    ((apply e p).config ≡ p.config)
    × (p.active ≤ p.config.max_active_requests → (apply e p).active ≤ p.config.max_active_requests)
    × (length p.idle_http1 ≤ p.config.max_idle_connections
        → length (apply e p).idle_http1 ≤ p.config.max_idle_connections)
    × (is_idle c (apply e p).idle_http1 ≡ true → (is_idle c p.idle_http1 || ends_well c e) ≡ true)

apply_lem : (c : ℕ) (e : Event) (p : UpstreamPool) → Goes c e p
unfolding begin_exchange take_idle_http1 reap_idle finish_http1 return_http1 record_activity
apply_lem c (began now) p = ground arith
apply_lem c ended p = ground arith
apply_lem c cancelled p = ground arith
apply_lem c (took closed now) p =
    ground (arith, pop_usable_lem closed now p.config.idle_timeout c p.idle_http1)
apply_lem c (reaped closed now) p = ground (
  arith,
  filter_lem (λ entry. not p.shutdown && is_usable closed now p.config.idle_timeout entry) c
      p.idle_http1,
)
apply_lem c (finished closed now body) p = ground arith

-- In any run of the operations on a pool without idle connections and leases, at most as many leases are
-- held and as many connections idle as allowed, and each idle connection had a whole and healthy
-- exchange, with the response and the upload at their ends, and was open then.
pub after-IsClean :
    (p : UpstreamPool) (events : List Event)
    → p.active ≡ 0
    → p.idle_http1 ≡ []
    → ((after p events).config ≡ p.config)
      × ((after p events).active ≤ p.config.max_active_requests)
      × (length (after p events).idle_http1 ≤ p.config.max_idle_connections)
      × ((connection : ℕ)
          → is_idle connection (after p events).idle_http1 ≡ true
          → any (ends_well connection) events ≡ true)
after-IsClean p [] a i = (refl, ground arith, ground arith, λ c h. ground arith)
after-IsClean p (e ∷ earlier) a i =
    let rest = after-IsClean p earlier a i in
    let step : (c : ℕ) → Goes c e (after p earlier) = λ c. apply_lem c e (after p earlier) in
    (
      (step 0).0 ∙ rest.0,
      ground (arith, (step 0).1, rest.0),
      ground (arith, (step 0).2, rest.0),
      λ c h. ground (arith, (step c).3, rest.3 c),
    )
