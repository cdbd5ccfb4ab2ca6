-- ===== src/Messages/Continue.antt =====
-- src/gateway/websocket_message.rs: `BoundedMessages` in the middle of a message.
use edge_gateway.Prelude.{
  ℕ, ◌^◌, ◌≤◌, ◌<◌, ◌≡◌, refl, ◌⊎◌, inl, inr, true, false, none, some, List, [], ◌∷◌, ◌++◌, length,
  arith, length-append, Result, ok, err, is_empty,
}
use edge_gateway.Prelude.Text.{Text}
use edge_gateway.Messages.Scan.{append_assoc, append_nil}
use edge_gateway.Messages.Sequence.{Fits, IsReading, count_bytes-Counted}
use edge_gateway.Messages.{
  OpCode, continuation, WebSocketError, Frame, MessageSequence, BoundedMessages, count_bytes,
  validate, continue_message, collect,
}

-- The frames behind the first one of a message, and all of them.
abbrev pub continuations : List Text → List Frame
continuations [] = []
continuations (p ∷ ps) =
    record { fin = is_empty ps; opcode = continuation; payload = p } ∷ continuations ps

abbrev pub fragments_of : OpCode → Text → List Text → List Frame
fragments_of op p ps = record { fin = is_empty ps; opcode = op; payload = p } ∷ continuations ps

abbrev pub joined : List Text → Text
joined [] = []
joined (p ∷ ps) = p ++ joined ps

-- The frames of a connection, up to the first error: the messages that are handed on.
unfoldable pub collect_all :
    BoundedMessages → List Frame → BoundedMessages × Result WebSocketError (List Frame)
collect_all m [] = (m, ok [])
collect_all m (f ∷ fs) =
    let (m', answer) = collect m f in
    let (end, later) = collect_all m' fs in
    elim answer [
      | err e ↦ (m', err e)
      | ok none ↦ (end, later)
      | ok (some message) ↦
          (end, elim later [ err e ↦ err e | ok messages ↦ ok (message ∷ messages) ])
    ]

-- The message is handed on as one frame where it fits, and between two messages after it; otherwise
-- the frames end in an error.
abbrev pub Delivered :
    OpCode → ℕ → Text → BoundedMessages × Result WebSocketError (List Frame) → Type 0
Delivered op maximum message answer =
    (Fits op maximum message
      × (answer.1 ≡ ok (record { fin = true; opcode = op; payload = message } ∷ []))
      × (answer.0.sequence.opcode ≡ none)
      × (answer.0.sequence.maximum ≡ maximum))
    ⊎ ((¬ Fits op maximum message) × ((e : WebSocketError) × (answer.1 ≡ err e)))

module _ (m : BoundedMessages) (op : OpCode) (before : Text) (f : Frame) where
  abbrev counted : MessageSequence × Result WebSocketError (Unit {0})
  counted = count_bytes m.sequence f

  abbrev IsNext : Type 0
  IsNext =
      (f.opcode ≡ continuation) × IsReading m.sequence op before × (m.fragments ≡ some (op, before))

  collect_bad : (e : WebSocketError) → IsNext → counted.1 ≡ err e → (collect m f).1 ≡ err e
  unfolding collect validate
  collect_bad e (c, r, held) bad = ground (arith, r.opcode)

  collect_more :
      IsNext
      → counted.1 ≡ ok tt
      → f.fin ≡ false
      → length (before ++ f.payload) ≤ m.sequence.maximum
      → counted.0.maximum ≡ m.sequence.maximum
      → m.sequence.maximum < 2 ^ 64
      → collect m f
        ≡ (record { sequence = counted.0; fragments = some (op, before ++ f.payload) }, ok none)
  unfolding collect validate continue_message
  collect_more (c, r, held) fine more fits same small =
      ground (arith, r.opcode, length-append before f.payload)

  collect_last :
      IsNext
      → counted.1 ≡ ok tt
      → f.fin ≡ true
      → length (before ++ f.payload) ≤ m.sequence.maximum
      → counted.0.maximum ≡ m.sequence.maximum
      → m.sequence.maximum < 2 ^ 64
      → collect m f ≡ (
        record { sequence = counted.0; fragments = none },
        ok (some (record { fin = true; opcode = op; payload = before ++ f.payload })),
      )
  unfolding collect validate continue_message
  collect_last (c, r, held) fine last fits same small =
      ground (arith, r.opcode, length-append before f.payload)

-- How `collect_all` goes on.
module _ (m m' : BoundedMessages) (f : Frame) (fs : List Frame) where
  pub collect_all_bad :
      (e : WebSocketError) → (collect m f).1 ≡ err e → (collect_all m (f ∷ fs)).1 ≡ err e
  unfolding collect_all
  collect_all_bad e h = ground arith

  pub collect_all_more : collect m f ≡ (m', ok none) → collect_all m (f ∷ fs) ≡ collect_all m' fs
  unfolding collect_all
  collect_all_more h = ground arith

pub collect_all_last :
    (m m' : BoundedMessages) (f message : Frame)
    → collect m f ≡ (m', ok (some message))
    → collect_all m (f ∷ []) ≡ (m', ok (message ∷ []))
unfolding collect_all
collect_all_last m m' f message h = ground arith

-- In the middle of a message, the frames behind it deliver it.
pub continuations-Delivered :
    (m : BoundedMessages) (op : OpCode) (before p : Text) (ps : List Text)
    → m.sequence.maximum < 2 ^ 64
    → IsReading m.sequence op before
    → m.fragments ≡ some (op, before)
    → Delivered op m.sequence.maximum
        (before ++ joined (p ∷ ps))
        (collect_all m (continuations (p ∷ ps)))
continuations-Delivered m op before p [] small r held =
    let f : Frame = record { fin = true; opcode = continuation; payload = p } in
    rw (append_nil p) (elim (count_bytes-Counted m.sequence f op before r small) [
      | inl (e, bad, never) ↦ inr (
        λ g. never [] (λ l. refl) (rw (append_nil (before ++ p)) g),
        (e, collect_all_bad m m f [] e (collect_bad m op before f e (refl, r, held) bad)),
      )
      | inr (fine, same, last, more) ↦
          let (idle, fits) = last refl in
          let end =
            collect_all_last m _ f _
              (collect_last m op before f (refl, r, held) fine refl fits.0 same small) in
          rw end (inl (fits, refl, idle, same))
    ])
continuations-Delivered m op before p (p' ∷ ps) small r held =
    let f : Frame = record { fin = false; opcode = continuation; payload = p } in
    rw (← append_assoc before p (joined (p' ∷ ps)))
      (elim (count_bytes-Counted m.sequence f op before r small) [
        | inl (e, bad, never) ↦ inr (
          λ g. never (joined (p' ∷ ps)) (λ l. cc) g,
          (
            e,
            collect_all_bad m m f (continuations (p' ∷ ps)) e
                (collect_bad m op before f e (refl, r, held) bad),
          ),
        )
        | inr (fine, same, last, more) ↦
            let reading = more refl in
            let m' : BoundedMessages = record {
              sequence = (count_bytes m.sequence f).0;
              fragments = some (op, before ++ p);
            } in
            let end = collect_all_more m m' f (continuations (p' ∷ ps)) (
              collect_more m op before f (refl, r, held) fine refl (rw same at reading.bounded) same
                small) in
            let ih =
              continuations-Delivered m' op (before ++ p) p' ps (rw same small) reading refl in
            rw end (rw same at ih)
      ])
