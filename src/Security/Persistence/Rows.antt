-- ===== src/Security/Persistence/Rows.antt =====
-- src/security/ip_blocking_persistence.rs: the rows that are written, by address.
use edge_gateway.Prelude.{
  ℕ, ◌+◌, ◌≤◌, ◌<◌, ◌≡◌, ◌∙◌, refl, Option, none, some, List, [], ◌∷◌, length, ◌==◌, nat_eq, arith,
  if◌then◌else◌, ltb,
}
use edge_gateway.Prelude.Maps.{Map, get, IsMap}
use edge_gateway.Net.{IpAddr, ip_eq}
use edge_gateway.Security.Network.{normalize_ip}
use edge_gateway.Security.Blocking.{BlockRecord, ActiveBlock, block_seconds}
use edge_gateway.Security.Persistence.{sort_rows, insert_row, live_rows}

-- The row of an address.
abbrev pub find : IpAddr → List BlockRecord → Option BlockRecord
find ip [] = none
find ip (r ∷ rows) = if r.client_ip == ip then some r else find ip rows

abbrev pub IsDistinct : List BlockRecord → Type 0
IsDistinct [] = Unit
IsDistinct (r ∷ rows) = (find r.client_ip rows ≡ none) × IsDistinct rows

find-insert_row :
    (ip : IpAddr) (r : BlockRecord) (rows : List BlockRecord)
    → find r.client_ip rows ≡ none
    → find ip (insert_row r rows) ≡ (if r.client_ip == ip then some r else find ip rows)
unfolding insert_row
find-insert_row ip r [] h = refl
find-insert_row ip r (s ∷ rows) h = ground (
  arith,
  ip_eq.beq_iff r.client_ip ip,
  ip_eq.beq_iff s.client_ip ip,
  ip_eq.beq_iff s.client_ip r.client_ip,
  find-insert_row ip r rows,
)

insert_row-IsDistinct :
    (r : BlockRecord) (rows : List BlockRecord)
    → find r.client_ip rows ≡ none
    → IsDistinct rows
    → IsDistinct (insert_row r rows)
unfolding insert_row
insert_row-IsDistinct r [] h d = (refl, tt)
insert_row-IsDistinct r (s ∷ rows) h d = ground (
  arith,
  ip_eq.beq_iff r.client_ip s.client_ip,
  ip_eq.beq_iff s.client_ip r.client_ip,
  find-insert_row s.client_ip r rows,
  insert_row-IsDistinct r rows,
)

pub sort_rows_lem :
    (rows : List BlockRecord)
    → IsDistinct rows
    → IsDistinct (sort_rows rows) × ((ip : IpAddr) → find ip (sort_rows rows) ≡ find ip rows)
unfolding sort_rows
sort_rows_lem [] d = (tt, λ ip. refl)
sort_rows_lem (r ∷ rows) d =
    let rest = sort_rows_lem rows d.1 in
    let absent = rest.1 r.client_ip ∙ d.0 in
    (
      insert_row-IsDistinct r (sort_rows rows) absent rest.0,
      λ ip. find-insert_row ip r (sort_rows rows) absent ∙ rw (rest.1 ip) refl,
    )

length-insert_row :
    (r : BlockRecord) (rows : List BlockRecord) → length (insert_row r rows) ≡ length rows + 1
unfolding insert_row
length-insert_row r [] = refl
length-insert_row r (s ∷ rows) = ground (arith, length-insert_row r rows)

pub length-sort_rows : (rows : List BlockRecord) → length (sort_rows rows) ≡ length rows
unfolding sort_rows
length-sort_rows [] = refl
length-sort_rows (r ∷ rows) =
    ground (arith, length-insert_row r (sort_rows rows), length-sort_rows rows)

pub length-live_rows :
    (now : ℕ) (blocks : Map IpAddr ActiveBlock) → length (live_rows now blocks) ≤ length blocks
unfolding live_rows
length-live_rows now [] = omega arith
length-live_rows now ((ip, a) ∷ blocks) = ground (arith, length-live_rows now blocks)

-- A block as a restart of the process finds it: the row of its own address, a day long, with a start
-- that the wall clock has passed.
abbrev pub IsWritable : ℕ → IpAddr → ActiveBlock → Type 0
IsWritable wall ip a =
    (a.block.client_ip ≡ ip)
    × (normalize_ip ip ≡ ip)
    × (a.block.expires_at_unix_seconds ≡ a.block.created_at_unix_seconds + block_seconds)
    × (0 < a.block.observed_count)
    × (a.block.created_at_unix_seconds ≤ wall)

abbrev pub AllWritable : ℕ → Map IpAddr ActiveBlock → Type 0
AllWritable wall [] = Unit
AllWritable wall ((ip, a) ∷ blocks) = IsWritable wall ip a × AllWritable wall blocks

pub all_writable :
    (wall : ℕ) (blocks : Map IpAddr ActiveBlock)
    → IsMap blocks
    → ((ip : IpAddr) (a : ActiveBlock) → get ip blocks ≡ some a → IsWritable wall ip a)
    → AllWritable wall blocks
unfolding get
all_writable wall [] m h = tt
all_writable wall ((ip, a) ∷ blocks) m h = (
  h ip a (ground (arith, ip_eq.beq_iff ip ip)),
  all_writable wall blocks m.1 (λ j b found. h j b (ground (arith, ip_eq.beq_iff ip j))),
)

-- The rows of such blocks.
abbrev pub IsRow : ℕ → BlockRecord → Type 0
IsRow wall r =
    (normalize_ip r.client_ip ≡ r.client_ip)
    × (r.expires_at_unix_seconds ≡ r.created_at_unix_seconds + block_seconds)
    × (0 < r.observed_count)
    × (r.created_at_unix_seconds ≤ wall)

abbrev pub alive : ℕ → Option ActiveBlock → Option BlockRecord
alive now none = none
alive now (some a) = if ltb now a.deadline then some a.block else none

pub live_rows_lem :
    (wall now : ℕ) (blocks : Map IpAddr ActiveBlock)
    → IsMap blocks
    → AllWritable wall blocks
    → IsDistinct (live_rows now blocks)
      × ((ip : IpAddr) → find ip (live_rows now blocks) ≡ alive now (get ip blocks))
      × ((ip : IpAddr) (r : BlockRecord) → find ip (live_rows now blocks) ≡ some r → IsRow wall r)
unfolding live_rows get
live_rows_lem wall now [] m w = (tt, λ ip. refl, λ ip r found. ground arith)
live_rows_lem wall now ((ip, a) ∷ blocks) m w =
    let rest = live_rows_lem wall now blocks m.1 w.1 in
    (
      ground (arith, rest.0, rest.1 ip),
      λ j. ground (arith, ip_eq.beq_iff ip j, rest.1 j),
      λ j r found. ground (arith, ip_eq.beq_iff ip j, rest.2 j r),
    )
