-- ===== src/Security/Blocking/Escalation.antt =====
-- src/security/ip_blocking.rs: repeated violations of one client within a window.
use edge_gateway.Prelude.{
  ℕ, zero, suc, ◌+◌, ◌≤◌, ◌<◌, ltb, leb, ◌≡◌, ◌^◌, refl, true, false, List, [], ◌∷◌, none, some,
  arith, length, min, ◌-◌, ◌∙◌, ap,
}
use edge_gateway.Prelude.Maps.{Map, get, contains_key, insert, get-insert}
use edge_gateway.Net.{IpAddr, ip_eq}
use edge_gateway.Security.Blocking.{
  ViolationRule, window, at_rule, set_rule, ClientWindow, RuleWindow, ResolvedClientAddress,
  PendingBlock, PerRule, invalid_websocket, invalid_grpc, size_violation, namespace_scan, Runtime,
  seconds, temporary_seconds, is_blocked, deadlines, publish_temporary, live_durable,
  live_temporary, PendingBlock,
}
use edge_gateway.Security.Blocking.Violation.{
  Locks, bump, next_window, fresh_window, shard_at, set_shard, count_violation, queue_block,
}

pub live_deadlines :
    (ip : IpAddr) (m : Map IpAddr PendingBlock) (later : ℕ)
    → live_temporary (deadlines m) ip later
      ≡ elim (get ip m) [ none ↦ false | some e ↦ ltb later e.deadline ]
unfolding get live_temporary
live_deadlines ip [] later = refl
live_deadlines ip ((k, e) ∷ m) later = ground (arith, live_deadlines ip m later)

abbrev pub no_failures : Locks
no_failures = record { shard = true; pending = true }

-- A client that is queued is refused until its temporary restriction ends.
pub queued_is_blocked :
    (r : Runtime) (address : ResolvedClientAddress) (rule : ViolationRule) (count now later : ℕ)
    → contains_key address.client_ip r.pending ≡ false
    → length r.pending < r.config.max_pending_activations
    → later < now + seconds temporary_seconds
    → is_blocked (queue_block r no_failures address rule count now) address.client_ip later ≡ true
unfolding queue_block is_blocked publish_temporary
queued_is_blocked r address rule count now later new room before =
    let entry : PendingBlock = record {
      address = address;
      rule = rule;
      count = count;
      deadline = now + seconds temporary_seconds;
    } in
    let ip = address.client_ip in
    ground (
      arith,
      live_deadlines ip (insert ip entry r.pending) later,
      get-insert ip ip entry r.pending,
      ip_eq.beq_iff ip ip,
    )

at_rule-set_rule :
    {A : Type 0} (rule : ViolationRule) (a : A) (p : PerRule A)
    → at_rule rule (set_rule rule a p) ≡ a
at_rule-set_rule invalid_websocket a p = refl
at_rule-set_rule invalid_grpc a p = refl
at_rule-set_rule size_violation a p = refl
at_rule-set_rule namespace_scan a p = refl

pub shard_at-set_shard :
    (ss : List (Map IpAddr ClientWindow)) (i : ℕ) (s : Map IpAddr ClientWindow)
    → i < length ss
    → shard_at (set_shard ss i s) i ≡ s
shard_at-set_shard [] i s h = ground arith
shard_at-set_shard (t ∷ ss) zero s h = refl
shard_at-set_shard (t ∷ ss) (suc i) s h = shard_at-set_shard ss i s (omega arith)

pub not_blocked_later :
    (r : Runtime) (ip : IpAddr) (now later : ℕ)
    → is_blocked r ip now ≡ false
    → now ≤ later
    → is_blocked r ip later ≡ false
unfolding is_blocked live_durable live_temporary
not_blocked_later r ip now later h le = ground arith

pub within : (rule : ViolationRule) (now : ℕ) → now < now + window rule
unfolding window
within rule now = ground arith

-- A violation within the window counts one more.
bump_within :
    (rule : ViolationRule) (now since count : ℕ)
    → now < since + window rule
    → count < 2 ^ 32 - 1
    → bump rule now (record { since = since; count = count })
      ≡ record { since = since; count = count + 1 }
unfolding bump
bump_within rule now since count h l =
    let small : min (count + 1) (2 ^ 32 - 1) ≡ count + 1 = omega arith in
    let positive : now < now + window rule = within rule now in
    let inside : leb (window rule) (now - since) ≡ false = ground (arith, positive) in
    rw inside (rw small refl)

abbrev pub counted_from : ℕ → ℕ → RuleWindow
counted_from since count = record { since = since; count = count }

-- The client's window for the rule began at `since` and has counted `count` violations.
abbrev pub Warned : IpAddr → ViolationRule → ℕ → ℕ → Map IpAddr ClientWindow → Type 0
Warned ip rule since count shard =
    (w : ClientWindow) × (get ip shard ≡ some w) × (at_rule rule w.rules ≡ counted_from since count)

pub count_again :
    (shard : Map IpAddr ClientWindow) (room : ℕ) (ip : IpAddr) (rule : ViolationRule)
    (now since count : ℕ)
    → Warned ip rule since count shard
    → now < since + window rule
    → count < 2 ^ 32 - 1
    → (shard' : Map IpAddr ClientWindow) × (count_violation shard room ip rule now
        ≡ some (shard', count + 1))
      × Warned ip rule since (count + 1) shard'
unfolding count_violation next_window contains_key
count_again shard room ip rule now since count (w, found, counted) h l =
    let entry = next_window rule now w in
    let shard' = insert ip entry shard in
    let bumped : at_rule rule entry.rules ≡ counted_from since (count + 1) =
      at_rule-set_rule rule (bump rule now (at_rule rule w.rules)) w.rules
      ∙ ap (bump rule now) counted
      ∙ bump_within rule now since count h l in
    let found' : get ip shard' ≡ some entry =
      ground (arith, get-insert ip ip entry shard, ip_eq.beq_iff ip ip) in
    (shard', ground (arith, found, bumped), (entry, found', bumped))

at_fresh :
    (rule : ViolationRule) (now : ℕ) → at_rule rule (fresh_window now).rules ≡ counted_from now 0
at_fresh invalid_websocket now = refl
at_fresh invalid_grpc now = refl
at_fresh size_violation now = refl
at_fresh namespace_scan now = refl

pub count_first :
    (shard : Map IpAddr ClientWindow) (room : ℕ) (ip : IpAddr) (rule : ViolationRule) (now : ℕ)
    → get ip shard ≡ none
    → length shard < room
    → (shard' : Map IpAddr ClientWindow) × (count_violation shard room ip rule now
        ≡ some (shard', 1))
      × Warned ip rule now 1 shard'
unfolding count_violation next_window contains_key
count_first shard room ip rule now absent fits =
    let entry = next_window rule now (fresh_window now) in
    let shard' = insert ip entry shard in
    let fresh : at_rule rule (fresh_window now).rules ≡ counted_from now 0 = at_fresh rule now in
    let bumped : at_rule rule entry.rules ≡ counted_from now 1 =
      at_rule-set_rule rule (bump rule now (at_rule rule (fresh_window now).rules))
        (fresh_window now).rules
      ∙ ap (bump rule now) fresh
      ∙ bump_within rule now now 0 (within rule now) (omega arith) in
    let found' : get ip shard' ≡ some entry =
      ground (arith, get-insert ip ip entry shard, ip_eq.beq_iff ip ip) in
    (shard', ground (arith, absent, bumped), (entry, found', bumped))
