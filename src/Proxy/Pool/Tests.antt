-- ===== src/Proxy/Pool/Tests.antt =====
-- Runs of the pool, and its theorem at a run of four events.
use edge_gateway.Prelude.{
  ℕ, ◌≤◌, ◌≡◌, refl, Bool, true, false, none, some, List, [], ◌∷◌, any, length, nat_eq,
}
use edge_gateway.Proxy.Pool.{
  UpstreamPool, PooledResponseBody, record_activity, begin_exchange, is_usable, pop_usable,
  take_idle_http1, return_http1, reap_idle, finish_http1,
}
use edge_gateway.Proxy.Pool.Reuse.{
  Event, began, ended, finished, reaped, after, is_idle, ends_well, after-IsClean,
}

run : Unit {0}
unfolding record_activity begin_exchange is_usable pop_usable take_idle_http1 return_http1 reap_idle
    finish_http1
run = tt

abbrev pool : UpstreamPool
pool = record {
  config = record { max_active_requests = 2; max_idle_connections = 1; idle_timeout = 50 };
  active = 0;
  idle_http1 = [];
  http2 = some 4;
  last_activity = 0;
  reused = 0;
  rejected = 0;
  shutdown = false;
}

abbrev all_open : ℕ → Bool
all_open connection = false

abbrev body : ℕ → PooledResponseBody
body connection = record {
  http1 = some connection;
  healthy = true;
  is_end_stream = true;
  upload_complete = true;
}

abbrev events : List Event
events = ended ∷ finished all_open 12 (body 8) ∷ finished all_open 10 (body 7) ∷ began 5 ∷ []

run_tests :
    ((after pool events).idle_http1 ≡ (10, 7) ∷ [])
    × ((after pool events).active ≡ 0)
    × ((take_idle_http1 all_open 20 (after pool events)).1 ≡ some 7)
    × ((take_idle_http1 all_open 60 (after pool events)).1 ≡ none)
    × ((after pool (reaped all_open 70 ∷ events)).http2 ≡ none)
unfolding run
run_tests = (refl, refl, refl, refl, refl)

after-IsClean_example :
    ((after pool events).config ≡ pool.config)
    × ((after pool events).active ≤ 2)
    × (length (after pool events).idle_http1 ≤ 1)
    × ((connection : ℕ)
        → is_idle connection (after pool events).idle_http1 ≡ true
        → any (ends_well connection) events ≡ true)
after-IsClean_example = after-IsClean pool events refl refl
