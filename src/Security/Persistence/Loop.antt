-- ===== src/Security/Persistence/Loop.antt =====
-- src/security/ip_blocking_persistence.rs: the loop that restores such rows.
use edge_gateway.Prelude.{
  ℕ, ◌+◌, ◌-◌, min, ◌≡◌, ◌∙◌, refl, Bool, true, false, not, ◌||◌, Option, none, some, List, [], ◌∷◌,
  ok, contains, ◌==◌, nat_eq, arith, if◌then◌else◌, ltb, ap, or_else,
}
use edge_gateway.Prelude.Maps.{Map, get, insert, get-insert}
use edge_gateway.Net.{IpAddr, ip_eq}
use edge_gateway.Security.Network.{normalize_ip}
use edge_gateway.Security.Blocking.{BlockRecord, ActiveBlock, seconds, block_seconds}
use edge_gateway.Security.Persistence.{has_duration, rebase, restore}
use edge_gateway.Security.Persistence.Rows.{find, IsDistinct, IsRow}

-- What the loop makes of the rows.
abbrev pub running : ℕ → ℕ → Option BlockRecord → Option ActiveBlock
running wall now none = none
running wall now (some r) =
    if ltb wall r.expires_at_unix_seconds
    then some (record { block = r; deadline = now + seconds (r.expires_at_unix_seconds - wall) })
    else none

rebase-row : (wall : ℕ) (r : BlockRecord) → IsRow wall r → rebase wall r ≡ ok r
unfolding rebase
rebase-row wall r w = ground arith

has_duration-row : (wall : ℕ) (r : BlockRecord) → IsRow wall r → has_duration r ≡ true
unfolding has_duration
has_duration-row wall r w = ground arith

added :
    (b : Bool) (ip : IpAddr) (a : ActiveBlock) (blocks : Map IpAddr ActiveBlock)
    → (if not b then blocks else insert ip a blocks)
      ≡ elim (if b then some a else none) [ none ↦ blocks | some c ↦ insert ip c blocks ]
added true ip a blocks = refl
added false ip a blocks = refl

-- One round of it.
restore-row :
    (wall now : ℕ) (seen : List IpAddr) (blocks : Map IpAddr ActiveBlock) (r : BlockRecord)
    (rows : List BlockRecord)
    → IsRow wall r
    → contains r.client_ip seen ≡ false
    → restore wall now seen blocks (r ∷ rows)
      ≡ restore wall now
          (r.client_ip ∷ seen)
          (elim (running wall now (some r)) [
            | none ↦ blocks
            | some a ↦ insert r.client_ip a blocks
          ])
          rows
unfolding restore
restore-row wall now seen blocks r rows w fresh =
    let own : record r { client_ip = normalize_ip r.client_ip } ≡ r =
      ap (λ ip. record r { client_ip = ip }) w.0 in
    let same : contains (normalize_ip r.client_ip) seen ≡ false =
      ap (λ ip. contains ip seen) w.0 ∙ fresh in
    let kept : rebase wall r ≡ ok r = rebase-row wall r w in
    let accepted : (not (has_duration r)
          || r.observed_count == 0
          || contains (normalize_ip r.client_ip) seen)
        ≡ false =
      ground (arith, has_duration-row wall r w) in
    let left : min (r.expires_at_unix_seconds - wall) block_seconds
        ≡ r.expires_at_unix_seconds - wall =
      ground arith in
    let over : (r.expires_at_unix_seconds - wall == 0) ≡ not (ltb wall r.expires_at_unix_seconds) =
      ground arith in
    rw (accepted, own, kept, w.0, left, over)
      (ap (λ m. restore wall now (r.client_ip ∷ seen) m rows)
        (added (ltb wall r.expires_at_unix_seconds) r.client_ip
          (record { block = r; deadline = now + seconds (r.expires_at_unix_seconds - wall) })
          blocks))

get-added :
    (j ip : IpAddr) (o : Option ActiveBlock) (blocks : Map IpAddr ActiveBlock)
    → get j (elim o [ none ↦ blocks | some a ↦ insert ip a blocks ])
      ≡ (if ip == j then or_else o (get j blocks) else get j blocks)
get-added j ip none blocks = ground arith
get-added j ip (some a) blocks = ground (arith, get-insert ip j a blocks)

joined :
    (wall now : ℕ) (same : Bool) (r : BlockRecord) (o : Option BlockRecord)
    (old : Option ActiveBlock)
    → (same ≡ true → o ≡ none)
    → or_else (running wall now o) (if same then or_else (running wall now (some r)) old else old)
      ≡ or_else (running wall now (if same then some r else o)) old
joined wall now true r none old h = refl
joined wall now true r (some q) old h = ground (arith, h refl)
joined wall now false r o old h = refl

pub restore_lem :
    (wall now : ℕ) (seen : List IpAddr) (blocks : Map IpAddr ActiveBlock) (rows : List BlockRecord)
    → IsDistinct rows
    → ((ip : IpAddr) (r : BlockRecord) → find ip rows ≡ some r → IsRow wall r)
    → ((ip : IpAddr) → contains ip seen ≡ true → find ip rows ≡ none)
    → (out : Map IpAddr ActiveBlock) × (restore wall now seen blocks rows ≡ ok out)
      × ((ip : IpAddr) → get ip out ≡ or_else (running wall now (find ip rows)) (get ip blocks))
unfolding restore
restore_lem wall now seen blocks [] d w s = (blocks, refl, λ ip. refl)
restore_lem wall now seen blocks (r ∷ rows) d w s =
    let mine = w r.client_ip r (ground (arith, ip_eq.beq_iff r.client_ip r.client_ip)) in
    let fresh : contains r.client_ip seen ≡ false =
      ground (arith, ip_eq.beq_iff r.client_ip r.client_ip, s r.client_ip) in
    let more : Map IpAddr ActiveBlock = elim (running wall now (some r)) [
      | none ↦ blocks
      | some a ↦ insert r.client_ip a blocks
    ] in
    let rest =
      restore_lem wall now (r.client_ip ∷ seen) more rows d.1
        (λ ip q found. w ip q (ground (arith, ip_eq.beq_iff r.client_ip ip, d.0)))
        (λ ip known. ground (arith, ip_eq.beq_iff r.client_ip ip, d.0, s ip)) in
    (
      rest.0,
      restore-row wall now seen blocks r rows mine fresh ∙ rest.1,
      λ ip.
          rest.2 ip
          ∙ rw (get-added ip r.client_ip (running wall now (some r)) blocks) (
              joined wall now (r.client_ip == ip) r (find ip rows) (get ip blocks)
                (λ h. ground (arith, ip_eq.beq_iff r.client_ip ip, d.0))),
    )
