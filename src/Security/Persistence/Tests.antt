-- ===== src/Security/Persistence/Tests.antt =====
-- Runs of the state file, and its theorems at inputs that meet their hypotheses. The format of these
-- runs is a list of numbers.
use edge_gateway.Prelude.{
  ℕ, ◌≡◌, ◌==◌, if◌then◌else◌, ◌≤◌, refl, Option, none, some, List, [], ◌∷◌, ok, length, arith,
  nat_eq,
}
use edge_gateway.Prelude.Text.{Text}
use edge_gateway.Prelude.Maps.{Map, get, insert, IsMap}
use edge_gateway.Net.{IpAddr, v4, v6, ip_eq, is_ipv4_mapped}
use edge_gateway.Security.Network.{normalize_ip}
use edge_gateway.Security.Blocking.{
  BlockRecord, ActiveBlock, ViolationRule, invalid_websocket, invalid_grpc, size_violation,
  namespace_scan,
}
use edge_gateway.Security.Persistence.{
  BlockFile, has_duration, rebase, restore, load_client_ip_blocklist, written_state, sort_rows,
  insert_row, live_rows, ip_le,
}
use edge_gateway.Security.Persistence.Restored.{IsRestored, load-IsRestored}
use edge_gateway.Security.Persistence.Rows.{IsWritable}
use edge_gateway.Security.Persistence.Written.{restarted, load-written}

abbrev rule_number : ViolationRule → ℕ
rule_number invalid_websocket = 0
rule_number invalid_grpc = 1
rule_number size_violation = 2
rule_number namespace_scan = 3

abbrev rule_of : ℕ → ViolationRule
rule_of n =
    if n == 0
    then invalid_websocket
    else if n == 1
    then invalid_grpc
    else if n == 2
    then size_violation
    else namespace_scan

abbrev address_numbers : IpAddr → List ℕ → Text
address_numbers (v4 a) t = 4 ∷ a ∷ t
address_numbers (v6 a) t = 6 ∷ a ∷ t

abbrev ip_of : ℕ → ℕ → IpAddr
ip_of n a = if n == 4 then v4 a else v6 a

abbrev print_rows : List BlockRecord → Text
print_rows [] = []
print_rows (r ∷ rows) = address_numbers r.client_ip (
    r.created_at_unix_seconds
    ∷ r.expires_at_unix_seconds
    ∷ rule_number r.rule
    ∷ r.observed_count
    ∷ print_rows rows)

abbrev pub print : BlockFile → Text
print file = file.version ∷ print_rows file.blocks

abbrev parse_rows : Text → Option (List BlockRecord)
parse_rows [] = some []
parse_rows (f ∷ a ∷ c ∷ e ∷ k ∷ n ∷ t) = elim (parse_rows t) [
  | none ↦ none
  | some rows ↦ some (
      record {
        client_ip = ip_of f a;
        created_at_unix_seconds = c;
        expires_at_unix_seconds = e;
        rule = rule_of k;
        observed_count = n;
      }
      ∷ rows)
]
parse_rows t = none

abbrev pub parse : Text → Option BlockFile
parse [] = none
parse (v ∷ t) = elim (parse_rows t) [
  | none ↦ none
  | some rows ↦ some (record { version = v; blocks = rows })
]

rule_of-rule_number : (k : ViolationRule) → rule_of (rule_number k) ≡ k
rule_of-rule_number invalid_websocket = refl
rule_of-rule_number invalid_grpc = refl
rule_of-rule_number size_violation = refl
rule_of-rule_number namespace_scan = refl

parse_rows-row :
    (ip : IpAddr) (c e n : ℕ) (k : ViolationRule) (rows : List BlockRecord)
    → parse_rows (print_rows rows) ≡ some rows
    → parse_rows (address_numbers ip (c ∷ e ∷ rule_number k ∷ n ∷ print_rows rows))
      ≡ some (
          record {
            client_ip = ip;
            created_at_unix_seconds = c;
            expires_at_unix_seconds = e;
            rule = k;
            observed_count = n;
          }
          ∷ rows)
parse_rows-row (v4 a) c e n k rows h = rw (parse_rows, h, rule_of-rule_number k) refl
parse_rows-row (v6 a) c e n k rows h = rw (parse_rows, h, rule_of-rule_number k) refl

parse_rows-print_rows : (rows : List BlockRecord) → parse_rows (print_rows rows) ≡ some rows
parse_rows-print_rows [] = refl
parse_rows-print_rows (r ∷ rows) =
    parse_rows-row r.client_ip r.created_at_unix_seconds r.expires_at_unix_seconds r.observed_count
      r.rule rows (parse_rows-print_rows rows)

pub parse-print : (file : BlockFile) → parse (print file) ≡ some file
parse-print file = rw (parse, parse_rows-print_rows file.blocks) refl

-- Opens what a run calls.
run : Unit {0}
unfolding normalize_ip is_ipv4_mapped get insert has_duration rebase restore
    load_client_ip_blocklist written_state sort_rows insert_row live_rows ip_le
run = tt

abbrev pub block_of : ℕ → ℕ → ActiveBlock
block_of a deadline = record {
  block = record {
    client_ip = v4 a;
    created_at_unix_seconds = 1000;
    expires_at_unix_seconds = 87400;
    rule = namespace_scan;
    observed_count = 7;
  };
  deadline = deadline;
}

abbrev blocks : Map IpAddr ActiveBlock
blocks = (v4 9, block_of 9 50) ∷ (v4 5, block_of 5 90) ∷ (v4 7, block_of 7 20) ∷ []

abbrev pub bytes : Text
bytes = 1 ∷ 4 ∷ 5 ∷ 1000 ∷ 87400 ∷ 3 ∷ 7 ∷ 4 ∷ 9 ∷ 1000 ∷ 87400 ∷ 3 ∷ 7 ∷ []

abbrev pub restored : Map IpAddr ActiveBlock
restored = (v4 5, block_of 5 400000000003) ∷ (v4 9, block_of 9 400000000003) ∷ []

written_test : written_state parse print 30 blocks ≡ ok bytes
unfolding run
written_test = refl

pub loaded_test : load_client_ip_blocklist parse print 4 87000 3 (some bytes) ≡ ok restored
unfolding run
loaded_test = refl

load-IsRestored_example :
    IsMap restored
    × (length restored ≤ 4)
    × ((ip : IpAddr) (a : ActiveBlock) → get ip restored ≡ some a → IsRestored 87000 3 ip a)
load-IsRestored_example = load-IsRestored parse print 4 87000 3 (some bytes) restored loaded_test

blocks-IsWritable : (ip : IpAddr) (a : ActiveBlock) → get ip blocks ≡ some a → IsWritable 87000 ip a
unfolding run
blocks-IsWritable (v4 n) a h = ground arith
blocks-IsWritable (v6 n) a h = ground arith

load-written_example :
    (out : Map IpAddr ActiveBlock) × (load_client_ip_blocklist parse print 4 87000 3 (some bytes)
      ≡ ok out)
    × ((ip : IpAddr) → get ip out ≡ restarted 87000 30 3 (get ip blocks))
unfolding run
load-written_example =
    load-written parse print parse-print 4 87000 30 3 blocks bytes (refl, (refl, (refl, tt)))
      (omega arith) blocks-IsWritable written_test
