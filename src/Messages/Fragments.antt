-- ===== src/Messages/Fragments.antt =====
-- src/gateway/websocket_message.rs: `BoundedMessages` joins the fragments of a message.
use edge_gateway.Prelude.{
  ◌^◌, ◌<◌, ◌≡◌, refl, inl, inr, Bool, true, false, none, some, List, [], ◌∷◌, arith, Result, ok,
  err,
}
use edge_gateway.Prelude.Text.{Text}
use edge_gateway.Messages.Utf8.{boundary, run}
use edge_gateway.Messages.Scan.{append_nil}
use edge_gateway.Messages.Sequence.{IsReading, count_bytes-Counted}
use edge_gateway.Messages.{
  OpCode, continuation, text, binary, WebSocketError, Frame, MessageSequence, BoundedMessages,
  count_bytes, validate, collect, starts_message, is_continuation, close, ping, pong,
}
use edge_gateway.Messages.Continue.{
  continuations, fragments_of, joined, collect_all, Delivered, collect_all_bad, collect_all_more,
  collect_all_last, continuations-Delivered,
}

-- Between two messages, the first frame of the next one.
abbrev started : MessageSequence → OpCode → MessageSequence
started s op = record s { opcode = some op; bytes = 0; utf8_tail = [] }

abbrev first_frame : OpCode → Bool → Text → Frame
first_frame op fin p = record { fin = fin; opcode = op; payload = p }

started-IsReading : (s : MessageSequence) (op : OpCode) → IsReading (started s op) op []
unfolding run
started-IsReading s op = record {
  opcode = refl;
  counted = refl;
  bounded = omega arith;
  state = boundary;
  tail = λ txt. (refl, refl);
}

start_is :
    (s : MessageSequence) (op : OpCode) (fin : Bool) (p : Text)
    → starts_message op ≡ true
    → s.opcode ≡ none
    → validate s (first_frame op fin p) ≡ count_bytes (started s op) (first_frame op fin p)
unfolding validate
start_is s continuation fin p starts idle = cc
start_is s text fin p starts idle = rw idle refl
start_is s binary fin p starts idle = rw idle refl
start_is s close fin p starts idle = cc
start_is s ping fin p starts idle = cc
start_is s pong fin p starts idle = cc

no_continuation : (op : OpCode) → starts_message op ≡ true → is_continuation op ≡ false
no_continuation op h = ground arith

module _ (m : BoundedMessages) (op : OpCode) (p : Text) (starts : starts_message op ≡ true)
    (idle : m.sequence.opcode ≡ none) where
  abbrev counted_first : Bool → MessageSequence × Result WebSocketError (Unit {0})
  counted_first fin = count_bytes (started m.sequence op) (first_frame op fin p)

  first_bad :
      (fin : Bool) (e : WebSocketError)
      → (counted_first fin).1 ≡ err e
      → (collect m (first_frame op fin p)).1 ≡ err e
  unfolding collect
  first_bad fin e bad = let checked = start_is m.sequence op fin p starts idle in ground arith

  first_more :
      (counted_first false).1 ≡ ok tt
      → collect m (first_frame op false p)
        ≡ (record { sequence = (counted_first false).0; fragments = some (op, p) }, ok none)
  unfolding collect
  first_more fine =
      let checked = start_is m.sequence op false p starts idle in
      ground (arith, no_continuation op starts)

  first_last :
      (counted_first true).1 ≡ ok tt
      → collect m (first_frame op true p) ≡ (
        record { sequence = (counted_first true).0; fragments = m.fragments },
        ok (some (first_frame op true p)),
      )
  unfolding collect
  first_last fine =
      let checked = start_is m.sequence op true p starts idle in
      ground (arith, no_continuation op starts)

-- Between two messages, under a limit that a `usize` holds, the fragments of a text or binary message
-- hand on the whole message as one frame exactly when it is within the limit and, for a text, UTF-8;
-- the next message may then begin. Otherwise they end in an error.
pub fragments-Delivered :
    (m : BoundedMessages) (op : OpCode) (p : Text) (ps : List Text)
    → starts_message op ≡ true
    → m.sequence.opcode ≡ none
    → m.sequence.maximum < 2 ^ 64
    → Delivered op m.sequence.maximum (joined (p ∷ ps)) (collect_all m (fragments_of op p ps))
fragments-Delivered m op p [] starts idle small =
    let s = started m.sequence op in
    let f = first_frame op true p in
    rw (append_nil p)
      (elim (count_bytes-Counted s f op [] (started-IsReading m.sequence op) small) [
        | inl (e, bad, never) ↦ inr (
          λ g. never [] (λ l. refl) (rw (append_nil p) g),
          (e, collect_all_bad m m f [] e (first_bad m op p starts idle true e bad)),
        )
        | inr (fine, same, last, more) ↦
            let (closed, fits) = last refl in
            rw (collect_all_last m _ f _ (first_last m op p starts idle fine))
              (inl (fits, refl, closed, same))
      ])
fragments-Delivered m op p (p' ∷ ps) starts idle small =
    let s = started m.sequence op in
    let f = first_frame op false p in
    elim (count_bytes-Counted s f op [] (started-IsReading m.sequence op) small) [
      | inl (e, bad, never) ↦ inr (
        λ g. never (joined (p' ∷ ps)) (λ l. cc) g,
        (
          e,
          collect_all_bad m m f (continuations (p' ∷ ps)) e
              (first_bad m op p starts idle false e bad),
        ),
      )
      | inr (fine, same, last, more) ↦
          let m' : BoundedMessages = record {
            sequence = (count_bytes s f).0;
            fragments = some (op, p);
          } in
          let ih = continuations-Delivered m' op p p' ps (rw same small) (more refl) refl in
          rw
            (collect_all_more m m' f (continuations (p' ∷ ps)) (first_more m op p starts idle fine))
            (rw same at ih)
    ]
