-- ===== src/Security/Persistence/Cycle/Tests.antt =====
-- A run of the persistence task on loaded blocks, and the theorem of the cycle at it.
use edge_gateway.Prelude.{◌≡◌, refl, true, false, some, [], ◌∷◌, ok, arith, nat_eq, ◌++◌}
use edge_gateway.Prelude.Text.{Text}
use edge_gateway.Prelude.Maps
use edge_gateway.Prelude.Maps.{Map, get}
use edge_gateway.Net.{IpAddr, v4, ip_eq, is_ipv4_mapped}
use edge_gateway.Security.Network
use edge_gateway.Security.Network.{normalize_ip}
use edge_gateway.Security.Blocking.{
  BlockingConfig, PendingBlock, ActiveBlock, allowed, invalid_grpc, direct_peer,
}
use edge_gateway.Security.Blocking.Persist.{Job, Outcome, activate, transact}
use edge_gateway.Security.Persistence.{
  load_client_ip_blocklist, written_state, sort_rows, insert_row, live_rows, ip_le,
}
use edge_gateway.Security.Persistence.Tests.{
  parse, print, parse-print, restored, bytes, loaded_test,
}
use edge_gateway.Security.Persistence.Written.{restarted}
use edge_gateway.Security.Persistence.Cycle.{IsBlocklist, load-IsBlocklist, load-snapshot}

run : Unit {0}
unfolding normalize_ip is_ipv4_mapped Maps.get Maps.insert Maps.retain Maps.contains_key
    Network.contains allowed activate transact written_state sort_rows insert_row live_rows ip_le
run = tt

abbrev config : BlockingConfig
config = record {
  enabled = true;
  scan_namespaces = [];
  max_tracked_client_ips = 640;
  max_blocked_client_ips = 4;
  max_pending_activations = 10;
  persistence_batch_size = 5;
  thresholds = record { of_websocket = 2; of_grpc = 2; of_size = 2; of_scan = 2 };
  allow = [];
}

abbrev entry : PendingBlock
entry = record {
  address = record {
    peer = record { ip = v4 6; port = 50000 };
    client_ip = v4 6;
    client_ip_source = direct_peer;
    trusted_proxy = false;
  };
  rule = invalid_grpc;
  count = 2;
  deadline = 300;
}

abbrev job : Job
job = record { old = restored; pending = (v4 6, entry) ∷ [] }

abbrev day : ActiveBlock
day = record {
  block = record {
    client_ip = v4 6;
    created_at_unix_seconds = 87000;
    expires_at_unix_seconds = 173400;
    rule = invalid_grpc;
    observed_count = 2;
  };
  deadline = 86400000000010;
}

abbrev snapshot : Map IpAddr ActiveBlock
snapshot = restored ++ ((v4 6, day) ∷ [])

abbrev outcome : Outcome
outcome = record {
  snapshot = some snapshot;
  consumed = v4 6 ∷ [];
  activated = entry ∷ [];
  capacity_overflow = false;
}

abbrev content : Text
content =
    1 ∷ 4 ∷ 5 ∷ 1000 ∷ 87400 ∷ 3 ∷ 7 ∷ 4 ∷ 6 ∷ 87000 ∷ 173400 ∷ 1 ∷ 2 ∷ 4 ∷ 9 ∷ 1000 ∷ 87400 ∷ 3 ∷ 7
    ∷ []

transact_test : transact config job false 10 (some 87000) (λ m. true) ≡ ok outcome
unfolding run
transact_test = refl

content_test : written_state parse print 20 snapshot ≡ ok content
unfolding run
content_test = refl

load-snapshot_example :
    IsBlocklist 87000 snapshot
    × ((out : Map IpAddr ActiveBlock) × (load_client_ip_blocklist parse print 4 87010 4
            (some content)
          ≡ ok out)
        × ((ip : IpAddr) → get ip out ≡ restarted 87010 20 4 (get ip snapshot)))
unfolding run
load-snapshot_example =
    load-snapshot parse print parse-print config job false 10 87000 (λ m. true) outcome snapshot 20
      87010 4 content ((refl, (refl, tt)), omega arith)
      (load-IsBlocklist parse print 4 87000 3 (some bytes) restored loaded_test)
      ((refl, omega arith), tt) transact_test refl (omega arith) content_test
