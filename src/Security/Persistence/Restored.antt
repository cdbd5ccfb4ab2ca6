-- ===== src/Security/Persistence/Restored.antt =====
-- src/security/ip_blocking_persistence.rs: what the restored blocks are.
use edge_gateway.Prelude.{
  ℕ, ◌+◌, ◌-◌, ◌≤◌, ◌<◌, min, ◌≡◌, refl, Bool, true, false, Option, none, some, List, [], ◌∷◌, ok,
  length, ◌==◌, nat_eq, arith, inl, inr, if◌then◌else◌, Result-cases, Option-cases,
}
use edge_gateway.Prelude.Text.{Text}
use edge_gateway.Prelude.Maps.{Map, get, insert, get-insert, IsMap, insert-IsMap, length-insert-le}
use edge_gateway.Net.{IpAddr, v4, v6, ip_eq}
use edge_gateway.Security.Network.{normalize_ip}
use edge_gateway.Security.Blocking.{BlockRecord, ActiveBlock, seconds, block_seconds}
use edge_gateway.Security.Persistence.{
  BlockFile, has_duration, rebase, restore, load_client_ip_blocklist,
}

-- A block as it may stand in the map under an address: with a normal address of its own, a whole day
-- long, running now, and with the deadline that the rest of it gives.
abbrev pub IsRestored : ℕ → ℕ → IpAddr → ActiveBlock → Type 0
IsRestored wall now ip a =
    (a.block.client_ip ≡ ip)
    × (normalize_ip ip ≡ ip)
    × (a.block.expires_at_unix_seconds ≡ a.block.created_at_unix_seconds + block_seconds)
    × (0 < a.block.observed_count)
    × (wall < a.block.expires_at_unix_seconds)
    × (a.block.expires_at_unix_seconds ≤ wall + block_seconds)
    × (a.deadline ≡ now + seconds (a.block.expires_at_unix_seconds - wall))

pub normalize-normalize : (ip : IpAddr) → normalize_ip (normalize_ip ip) ≡ normalize_ip ip
unfolding normalize_ip
normalize-normalize (v4 a) = refl
normalize-normalize (v6 a) = ground arith

abbrev AllRestored : ℕ → ℕ → Map IpAddr ActiveBlock → Type 0
AllRestored wall now blocks =
    IsMap blocks
    × ((ip : IpAddr) (a : ActiveBlock) → get ip blocks ≡ some a → IsRestored wall now ip a)

row-IsRestored :
    (wall now : ℕ) (row kept : BlockRecord)
    → has_duration row ≡ true
    → (row.observed_count == 0) ≡ false
    → rebase wall (record row { client_ip = normalize_ip row.client_ip }) ≡ ok kept
    → (min (row.expires_at_unix_seconds - wall) block_seconds == 0) ≡ false
    → IsRestored wall now (normalize_ip row.client_ip) (record {
      block = kept;
      deadline = now + seconds (min (row.expires_at_unix_seconds - wall) block_seconds);
    })
unfolding has_duration rebase
row-IsRestored wall now row kept d c r m = ground (arith, normalize-normalize row.client_ip)

insert-AllRestored :
    (wall now : ℕ) (ip : IpAddr) (a : ActiveBlock) (blocks : Map IpAddr ActiveBlock)
    → IsRestored wall now ip a
    → AllRestored wall now blocks
    → AllRestored wall now (insert ip a blocks)
insert-AllRestored wall now ip a blocks one all = (
  insert-IsMap ip a blocks all.0,
  λ j b found. ground (arith, get-insert ip j a blocks, all.1 j b, ip_eq.beq_iff ip j),
)

none_yet : (wall now : ℕ) → AllRestored wall now []
unfolding get
none_yet wall now = (tt, λ ip a found. ground arith)

pick :
    (wall now : ℕ) (blocks more : Map IpAddr ActiveBlock) (test : Bool)
    → AllRestored wall now blocks
    → (test ≡ false → AllRestored wall now more)
    → AllRestored wall now (if test then blocks else more)
pick wall now blocks more true all next = all
pick wall now blocks more false all next = next refl

restore-AllRestored :
    (wall now : ℕ) (seen : List IpAddr) (blocks : Map IpAddr ActiveBlock) (rows : List BlockRecord)
    (out : Map IpAddr ActiveBlock)
    → AllRestored wall now blocks
    → restore wall now seen blocks rows ≡ ok out
    → AllRestored wall now out
unfolding restore
restore-AllRestored wall now seen blocks [] out all h =
    let same : out ≡ blocks = ground arith in rw same all
restore-AllRestored wall now seen blocks (row ∷ rows) out all h =
    let ip = normalize_ip row.client_ip in
    let remaining = min (row.expires_at_unix_seconds - wall) block_seconds in
    elim (Result-cases (rebase wall (record row { client_ip = ip }))) [
      | inl (kept, same) ↦
          let a : ActiveBlock = record { block = kept; deadline = now + seconds remaining } in
          let more = if remaining == 0 then blocks else insert ip a blocks in
          let one : (remaining == 0) ≡ false → IsRestored wall now ip a =
            λ m. row-IsRestored wall now row kept (ground arith) (ground arith) same m in
          restore-AllRestored wall now (ip ∷ seen) more rows out
            (pick wall now blocks (insert ip a blocks) (remaining == 0) all
              (λ m. insert-AllRestored wall now ip a blocks (one m) all))
            (ground arith)
      | inr (e, same) ↦ ground arith
    ]

restore-length :
    (wall now : ℕ) (seen : List IpAddr) (blocks : Map IpAddr ActiveBlock) (rows : List BlockRecord)
    (out : Map IpAddr ActiveBlock)
    → restore wall now seen blocks rows ≡ ok out
    → length out ≤ length blocks + length rows
unfolding restore
restore-length wall now seen blocks [] out h = ground arith
restore-length wall now seen blocks (row ∷ rows) out h =
    let ip = normalize_ip row.client_ip in
    let remaining = min (row.expires_at_unix_seconds - wall) block_seconds in
    elim (Result-cases (rebase wall (record row { client_ip = ip }))) [
      | inl (kept, same) ↦
          let a : ActiveBlock = record { block = kept; deadline = now + seconds remaining } in
          let more = if remaining == 0 then blocks else insert ip a blocks in
          let rest = restore-length wall now (ip ∷ seen) more rows out (ground arith) in
          let grown : length more ≤ length blocks + 1 =
            ground (arith, length-insert-le ip a blocks) in
          omega (arith, rest, grown)
      | inr (e, same) ↦ ground arith
    ]

module _ (parse : Text → Option BlockFile) (print : BlockFile → Text) where
  -- The blocks that a loaded state file gives are no more than allowed; each is under its own address,
  -- which is in normal form, is a whole day long, runs at this time, and ends as long from now on the
  -- monotonic clock as its record does on the wall clock.
  pub load-IsRestored :
      (maximum wall now : ℕ) (content : Option Text) (out : Map IpAddr ActiveBlock)
      → load_client_ip_blocklist parse print maximum wall now content ≡ ok out
      → IsMap out
        × (length out ≤ maximum)
        × ((ip : IpAddr) (a : ActiveBlock) → get ip out ≡ some a → IsRestored wall now ip a)
  unfolding load_client_ip_blocklist
  load-IsRestored maximum wall now none out h =
      let same : out ≡ [] = ground arith in
      rw same ((none_yet wall now).0, omega arith, (none_yet wall now).1)
  load-IsRestored maximum wall now (some bytes) out h = elim (Option-cases (parse bytes)) [
    | inl none' ↦ ground arith
    | inr (disk, some') ↦
        let restored : restore wall now [] [] disk.blocks ≡ ok out = ground arith in
        let all = restore-AllRestored wall now [] [] disk.blocks out (none_yet wall now) restored in
        (all.0, ground (arith, restore-length wall now [] [] disk.blocks out), all.1)
  ]
