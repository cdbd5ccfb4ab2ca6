-- ===== src/Security/Tests.antt =====
-- Runs of the address blocking code, and its theorems at inputs that meet their hypotheses.
use edge_gateway.Prelude.{ℕ, ◌≡◌, ◌∷◌, [], refl, true, false, some, ok, err, arith, nat_eq, list_eq}
use edge_gateway.Prelude.Text.{text, text_run}
use edge_gateway.Prelude.Maps
use edge_gateway.Prelude.Maps.{Map, get}
use edge_gateway.Net.{IpAddr, v4, v6, ip_eq, is_ipv4_mapped}
use edge_gateway.Net.Parse.{parse_ip}
use edge_gateway.Security.Network
use edge_gateway.Security.Network.{IpNetwork, v4_network, mask_of, normalize_ip}
use edge_gateway.Security.Blocking.{
  invalid_grpc, BlockingConfig, ResolvedClientAddress, direct_peer, Runtime, load, allowed,
  is_blocked, is_client_ip_blocked, live_durable, live_temporary, empty_shards, seconds,
  ActiveBlock, PendingBlock, window, is_scan_namespace, publish_temporary,
}
use edge_gateway.Security.Blocking.Violation.{
  capacity, bump, next_window, count_violation, queue_block, track_violation,
  record_client_protocol_violation,
}
use edge_gateway.Security.Blocking.Persist.{Job, Outcome, transact, activate, block_for, prepare}
use edge_gateway.Security.Blocking.Escalation.{no_failures}
use edge_gateway.Security.Blocking.Threshold.{offend, refused_at_threshold}
use edge_gateway.Security.Blocking.Isolation.{other_clients_unaffected}
use edge_gateway.Security.Blocking.Snapshot.{IsSuccessor, snapshot-IsSuccessor}
use edge_gateway.Security.Blocking.Reach.{System, start, then_step, violation}
use edge_gateway.Security.Blocking.Bounds.{boot, WithinLimits, limits_hold, load-IsValid}

-- Opens what a run of the blocking code calls.
run : Unit {0}
unfolding text_run parse_ip mask_of normalize_ip is_ipv4_mapped Network.parse Network.contains
    window allowed live_durable live_temporary is_blocked is_client_ip_blocked is_scan_namespace
    publish_temporary empty_shards load capacity bump next_window count_violation queue_block
    track_violation record_client_protocol_violation prepare activate transact Maps.get Maps.insert
    Maps.remove Maps.retain Maps.contains_key
run = tt

network_tests :
    (Network.parse (text "10.0.0.0/8") ≡ ok (v4_network 167772160 4278190080))
    × (Network.parse (text "10.0.0.1/8") ≡ err "CIDR must use the canonical network address")
    × (Network.contains (v4_network 167772160 4278190080) (v6 281470849515556) ≡ true)
unfolding run
network_tests = (refl, refl, refl)

abbrev config : BlockingConfig
config = record {
  enabled = true;
  scan_namespaces = text "/wp-admin" ∷ [];
  max_tracked_client_ips = 640;
  max_blocked_client_ips = 100;
  max_pending_activations = 10;
  persistence_batch_size = 5;
  thresholds = record { of_websocket = 2; of_grpc = 2; of_size = 2; of_scan = 2 };
  allow = v4_network 167772160 4278190080 ∷ [];
}

abbrev client : ResolvedClientAddress
client = record {
  peer = record { ip = v4 3232235777; port = 50000 };
  client_ip = v4 3232235777;
  client_ip_source = direct_peer;
  trusted_proxy = false;
}

abbrev by_zero : IpAddr → ℕ
by_zero ip = 0

abbrev fresh : Runtime
fresh = load config []

blocked_tests :
    ((is_client_ip_blocked
        (offend by_zero client invalid_grpc fresh (0 ∷ 5 ∷ []))
        client
        (seconds 299)).1
      ≡ true)
    × ((is_client_ip_blocked
          (offend by_zero client invalid_grpc fresh (0 ∷ []))
          client
          (seconds 299)).1
        ≡ false)
    × (is_scan_namespace fresh (text "/wp-admin/x") ≡ true)
unfolding run
blocked_tests = (refl, refl, refl)

refused_at_threshold_example :
    (is_client_ip_blocked
      (offend by_zero client invalid_grpc fresh (0 ∷ 5 ∷ []))
      client
      (seconds 299)).1
    ≡ true
unfolding run
refused_at_threshold_example =
    refused_at_threshold by_zero client invalid_grpc fresh 0 (5 ∷ []) (seconds 299)
      (record {
        enabled = refl;
        accepting = refl;
        not_allowed = refl;
        free = refl;
        unqueued = refl;
        room = omega arith;
        sharded = refl;
      })
      refl (omega arith) (omega arith, omega arith, tt) (omega arith) (omega arith) (omega arith)
      (omega arith)

other_clients_unaffected_example :
    is_blocked
      (record_client_protocol_violation by_zero fresh no_failures client invalid_grpc 0)
      (v4 5)
      7
    ≡ is_blocked fresh (v4 5) 7
other_clients_unaffected_example =
    other_clients_unaffected by_zero fresh no_failures client invalid_grpc 0 (v4 5) 7
      (load-IsValid config [] (tt, omega arith)) (λ e. absurd (cc))

after_one : System
after_one = record (boot config [] 0) {
  runtime = record_client_protocol_violation by_zero fresh no_failures client invalid_grpc 0;
}

limits_hold_example : WithinLimits config after_one.runtime
unfolding after_one
limits_hold_example =
    limits_hold by_zero config [] 0 after_one (tt, omega arith)
      (then_step (boot config [] 0) after_one start (violation no_failures client invalid_grpc 0))

abbrev entry : PendingBlock
entry = record { address = client; rule = invalid_grpc; count = 2; deadline = seconds 300 }

abbrev job : Job
job = record { old = []; pending = (client.client_ip, entry) ∷ [] }

abbrev written : Map IpAddr ActiveBlock
written = (client.client_ip, block_for client.client_ip entry 10 1700000000) ∷ []

abbrev outcome : Outcome
outcome = record {
  snapshot = some written;
  consumed = client.client_ip ∷ [];
  activated = entry ∷ [];
  capacity_overflow = false;
}

transact_test : transact config job false 10 (some 1700000000) (λ m. true) ≡ ok outcome
unfolding run
transact_test = refl

snapshot-IsSuccessor_example :
    (true ≡ true)
    × ((ip : IpAddr) (a : ActiveBlock) → IsSuccessor config job 10 1700000000 written ip a)
snapshot-IsSuccessor_example =
    snapshot-IsSuccessor config job false 10 1700000000 (λ m. true) outcome written tt transact_test
      refl
