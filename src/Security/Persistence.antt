-- ===== src/Security/Persistence.antt =====
-- src/security/ip_blocking_persistence.rs: the rows that are written to the state file, and the blocks
-- that are restored from it. The format of the file (serde_json) is a pair of parameters; the wall clock
-- in seconds and the monotonic clock in nanoseconds are arguments.
pub mod Restored
mod Rows
mod Loop
pub mod Written
pub mod Cycle
mod Tests
use edge_gateway.Prelude.{
  ℕ, ◌+◌, ◌-◌, ◌*◌, ◌^◌, min, String, Bool, true, false, not, ◌||◌, Option, none, some, List, [],
  ◌∷◌, map, Result, ok, err, ◌>>=◌, ◌>>◌, refuse, ok_or, if◌then◌else◌, ltb, leb, contains, length,
  ◌==◌, nat_eq, ◌&&◌,
}
use edge_gateway.Prelude.Text.{Text}
use edge_gateway.Prelude.Maps.{Map, insert}
use edge_gateway.Net.{IpAddr, v4, v6, ip_eq}
use edge_gateway.Security.Network.{normalize_ip}
use edge_gateway.Security.Blocking.{BlockRecord, ActiveBlock, seconds, block_seconds}

abbrev pub max_state_bytes : ℕ
max_state_bytes = 32 * 1024 * 1024

pub record BlockFile : Type 0 where
  pub version : ℕ
  pub blocks : List BlockRecord

-- `expires.checked_sub(created) != Some(BLOCK_SECONDS)`.
unfoldable pub has_duration : BlockRecord → Bool
has_duration r =
    leb r.created_at_unix_seconds r.expires_at_unix_seconds
    && r.expires_at_unix_seconds - r.created_at_unix_seconds == block_seconds

-- A row whose end is too far away was written under another clock, and begins now.
unfoldable pub rebase : ℕ → BlockRecord → Result String BlockRecord
rebase wall r =
    if ltb block_seconds (r.expires_at_unix_seconds - wall)
    then (if ltb (wall + block_seconds) (2 ^ 64)
        then ok (record r {
          created_at_unix_seconds = wall;
          expires_at_unix_seconds = wall + block_seconds;
        })
        else err "clock timestamp overflow")
    else ok r

-- The loop over the rows of the file, with the blocks and the addresses so far.
unfoldable pub restore :
    ℕ
    → ℕ
    → List IpAddr
    → Map IpAddr ActiveBlock
    → List BlockRecord
    → Result String (Map IpAddr ActiveBlock)
restore wall now seen blocks [] = ok blocks
restore wall now seen blocks (row ∷ rows) = do
  let ip = normalize_ip row.client_ip
  refuse (not (has_duration row) || row.observed_count == 0 || contains ip seen)
      "invalid block duration/count or duplicate normalized IP"
  let remaining = min (row.expires_at_unix_seconds - wall) block_seconds
  kept ← rebase wall (record row { client_ip = ip })
  let more =
      if remaining == 0
      then blocks
      else insert ip (record { block = kept; deadline = now + seconds remaining }) blocks
  restore wall now (ip ∷ seen) more rows

-- The order of `IpAddr`: IPv4 first.
unfoldable pub ip_le : IpAddr → IpAddr → Bool
ip_le (v4 a) (v4 b) = leb a b
ip_le (v4 a) (v6 b) = true
ip_le (v6 a) (v4 b) = false
ip_le (v6 a) (v6 b) = leb a b

unfoldable pub insert_row : BlockRecord → List BlockRecord → List BlockRecord
insert_row r [] = r ∷ []
insert_row r (s ∷ rows) =
    if ip_le r.client_ip s.client_ip then r ∷ s ∷ rows else s ∷ insert_row r rows

-- `sort_by_key` of the addresses.
unfoldable pub sort_rows : List BlockRecord → List BlockRecord
sort_rows [] = []
sort_rows (r ∷ rows) = insert_row r (sort_rows rows)

-- The rows of the blocks that have not run out.
unfoldable pub live_rows : ℕ → Map IpAddr ActiveBlock → List BlockRecord
live_rows now [] = []
live_rows now ((ip, a) ∷ blocks) =
    if ltb now a.deadline then a.block ∷ live_rows now blocks else live_rows now blocks

module _ (parse : Text → Option BlockFile) (print : BlockFile → Text) where
  -- `load_client_ip_blocklist` behind the lock: the content of the file, or `none` where there is none.
  unfoldable pub load_client_ip_blocklist :
      ℕ → ℕ → ℕ → Option Text → Result String (Map IpAddr ActiveBlock)
  load_client_ip_blocklist maximum wall now none = ok []
  load_client_ip_blocklist maximum wall now (some bytes) = do
    refuse (ltb max_state_bytes (length bytes)) "block state exceeds 32 MiB"
    disk ← ok_or (parse bytes) "invalid block state; preserve file and repair offline"
    refuse (not (disk.version == 1) || ltb maximum (length disk.blocks))
        "unsupported block state version or entry capacity exceeded"
    restore wall now [] [] disk.blocks

  -- The bytes that `persist_client_ip_blocklist_atomically` writes.
  unfoldable pub written_state : ℕ → Map IpAddr ActiveBlock → Result String Text
  written_state now blocks = do
    let bytes = print (record { version = 1; blocks = sort_rows (live_rows now blocks) })
    refuse (ltb max_state_bytes (length bytes)) "serialized block state exceeds 32 MiB"
    ok bytes
