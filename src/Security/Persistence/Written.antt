-- ===== src/Security/Persistence/Written.antt =====
-- src/security/ip_blocking_persistence.rs: the written blocks are the ones that are restored.
use edge_gateway.Prelude.{
  ℕ, ◌+◌, ◌-◌, ◌≤◌, ◌≡◌, ◌∙◌, refl, sym, false, ◌&&◌, Option, none, some, [], ok, length, nat_eq,
  arith, if◌then◌else◌, ltb, or_else,
}
use edge_gateway.Prelude.Text.{Text}
use edge_gateway.Prelude.Maps.{Map, get, IsMap}
use edge_gateway.Net.{IpAddr, ip_eq}
use edge_gateway.Security.Blocking.{ActiveBlock, seconds}
use edge_gateway.Security.Persistence.{
  BlockFile, max_state_bytes, load_client_ip_blocklist, written_state, sort_rows, live_rows,
}
use edge_gateway.Security.Persistence.Rows.{
  sort_rows_lem, length-sort_rows, length-live_rows, alive, live_rows_lem, all_writable, IsWritable,
}
use edge_gateway.Security.Persistence.Loop.{running, restore_lem}

-- The block of an address behind a restart at `later`, where it was `a` at `now` before.
abbrev pub restarted : ℕ → ℕ → ℕ → Option ActiveBlock → Option ActiveBlock
restarted wall now later none = none
restarted wall now later (some a) =
    if ltb now a.deadline && ltb wall a.block.expires_at_unix_seconds
    then some (record {
      block = a.block;
      deadline = later + seconds (a.block.expires_at_unix_seconds - wall);
    })
    else none

running-alive :
    (wall now later : ℕ) (o : Option ActiveBlock)
    → or_else (running wall later (alive now o)) none ≡ restarted wall now later o
running-alive wall now later none = refl
running-alive wall now later (some a) = ground arith

module _ (parse : Text → Option BlockFile) (print : BlockFile → Text) where
  -- With a format that reads back what it writes, and no more blocks than the loader allows, each a whole
  -- day long under its own normal address, with a count and a start that the wall clock has reached: a
  -- state that was written loads, and a block is restored, with its record, exactly where its deadline
  -- had not passed at the write and its end has not passed on the wall clock.
  pub load-written :
      ((file : BlockFile) → parse (print file) ≡ some file)
      → (maximum wall now later : ℕ) (blocks : Map IpAddr ActiveBlock) (bytes : Text) → IsMap blocks
      → length blocks ≤ maximum
      → ((ip : IpAddr) (a : ActiveBlock) → get ip blocks ≡ some a → IsWritable wall ip a)
      → written_state parse print now blocks ≡ ok bytes
      → (out : Map IpAddr ActiveBlock) × (load_client_ip_blocklist parse print maximum wall later
            (some bytes)
          ≡ ok out)
        × ((ip : IpAddr) → get ip out ≡ restarted wall now later (get ip blocks))
  unfolding written_state load_client_ip_blocklist get
  load-written round maximum wall now later blocks bytes m few w h =
      let rows = live_rows now blocks in
      let live = live_rows_lem wall now blocks m (all_writable wall blocks m w) in
      let sorted = sort_rows_lem rows live.0 in
      let file : BlockFile = record { version = 1; blocks = sort_rows rows } in
      let read : parse bytes ≡ some file = ground (arith, round file) in
      let loop =
        restore_lem wall later [] [] (sort_rows rows) sorted.0
          (λ ip r found. live.2 ip r (sym (sorted.1 ip) ∙ found)) (λ ip known. ground arith) in
      let counted : ltb maximum (length (sort_rows rows)) ≡ false =
        ground (arith, length-sort_rows rows, length-live_rows now blocks) in
      let small : ltb max_state_bytes (length bytes) ≡ false = ground arith in
      (
        loop.0,
        rw (small, read, counted) loop.1,
        λ ip.
            loop.2 ip ∙ rw (sorted.1 ip, live.1 ip) (running-alive wall now later (get ip blocks)),
      )
