-- ===== src/Messages/Sequence.antt =====
-- src/gateway/websocket_message.rs: `MessageSequence` after the fragments of a message.
use edge_gateway.Prelude.{
  ℕ, ◌+◌, ◌^◌, ◌≤◌, ◌<◌, ◌≡◌, refl, ◌⊎◌, inl, inr, Bool, true, false, not, ◌&&◌, Bool-cases, Option,
  none, some, [], ◌++◌, length, arith, length-append, Result, ok, err, if◌then◌else◌, ltb,
}
use edge_gateway.Prelude.Text.{Text}
use edge_gateway.Messages.Utf8.{Utf8State, boundary, run, is_boundary, is_utf8, run-append}
use edge_gateway.Messages.Scan.{IsTail, append_nil}
use edge_gateway.Messages.Partial.{Accepted, validate_utf8-Accepted}
use edge_gateway.Messages.{
  OpCode, WebSocketError, invalid_utf8, Frame, MessageSequence, validate_utf8, is_text, count_bytes,
  frame_too_large,
}

-- What the limits ask of a whole message: its size, and of a text that it is one.
abbrev pub Fits : OpCode → ℕ → Text → Type 0
Fits op maximum message =
    (length message ≤ maximum) × (is_text (some op) ≡ true → is_utf8 message ≡ true)

-- Behind these bytes of a message of this kind.
pub record IsReading (s : MessageSequence) (op : OpCode) (bytes : Text) : Type 0 where
  pub opcode : s.opcode ≡ some op
  pub counted : s.bytes ≡ length bytes
  pub bounded : length bytes ≤ s.maximum
  pub state : Utf8State
  pub tail : is_text (some op) ≡ true → IsTail s.utf8_tail state × (run boundary bytes ≡ some state)

-- A refused fragment is one that no message that fits begins with, or ends with if it is the last; and
-- an accepted one is read, the last one so that the message fits.
abbrev pub Counted :
    OpCode → ℕ → Text → Bool → MessageSequence × Result WebSocketError (Unit {0}) → Type 0
Counted op maximum bytes fin answer =
    ((e : WebSocketError) × (answer.1 ≡ err e)
      × ((rest : Text) → (fin ≡ true → rest ≡ []) → ¬ Fits op maximum (bytes ++ rest)))
    ⊎ ((answer.1 ≡ ok tt)
        × (answer.0.maximum ≡ maximum)
        × (fin ≡ true → (answer.0.opcode ≡ none) × Fits op maximum bytes)
        × (fin ≡ false → IsReading answer.0 op bytes))

too_long :
    (op : OpCode) (maximum : ℕ) (bytes rest : Text)
    → maximum < length bytes
    → ¬ Fits op maximum (bytes ++ rest)
too_long op maximum bytes rest h f = omega (arith, length-append bytes rest, f.0)

-- Bytes that lead nowhere, or that end inside a character, make no text.
not_utf8 :
    (bytes rest : Text) (o : Option Utf8State)
    → run boundary bytes ≡ o
    → (o ≡ none) ⊎ ((rest ≡ []) × ((r : Utf8State) × (o ≡ some r) × (is_boundary r ≡ false)))
    → is_utf8 (bytes ++ rest) ≡ false
unfolding is_utf8
not_utf8 bytes rest o e (inl bad) = ground (arith, run-append boundary bytes rest)
not_utf8 bytes rest o e (inr (nothing, (r, at, still))) =
    rw (nothing, append_nil bytes) (ground arith)

-- The sequence behind an accepted fragment, with its tail then.
abbrev settled : MessageSequence → Frame → Text → MessageSequence
settled s f tail =
    if f.fin
    then record s { opcode = none; bytes = 0; utf8_tail = tail }
    else record s { bytes = s.bytes + length f.payload; utf8_tail = tail }

module _ (s : MessageSequence) (f : Frame) where
  -- The size of the message is within the limit, which a `usize` holds.
  abbrev IsSized : Type 0
  IsSized = (s.bytes + length f.payload ≤ s.maximum) × (s.maximum < 2 ^ 64)

  count_bytes_over :
      s.maximum < s.bytes + length f.payload → (count_bytes s f).1 ≡ err frame_too_large
  unfolding count_bytes
  count_bytes_over h = ground arith

  count_bytes_binary :
      IsSized → is_text s.opcode ≡ false → count_bytes s f ≡ (settled s f s.utf8_tail, ok tt)
  unfolding count_bytes
  count_bytes_binary h b = ground arith

  count_bytes_text :
      IsSized
      → is_text s.opcode ≡ true
      → (validate_utf8 s.utf8_tail f.payload f.fin).1 ≡ ok tt
      → count_bytes s f ≡ (settled s f (validate_utf8 s.utf8_tail f.payload f.fin).0, ok tt)
  unfolding count_bytes
  count_bytes_text h b v = ground arith

  count_bytes_bad :
      IsSized
      → is_text s.opcode ≡ true
      → (validate_utf8 s.utf8_tail f.payload f.fin).1 ≡ err invalid_utf8
      → (count_bytes s f).1 ≡ err invalid_utf8
  unfolding count_bytes
  count_bytes_bad h b v = ground arith

  module _ (op : OpCode) (before : Text) (r : IsReading s op before) where
    settled-Counted :
        (tail : Text) (q : Utf8State)
        → IsSized
        → count_bytes s f ≡ (settled s f tail, ok tt)
        → (is_text (some op) ≡ true
            → IsTail tail q
              × (run boundary (before ++ f.payload) ≡ some q)
              × ((f.fin && not (is_boundary q)) ≡ false))
        → Counted op s.maximum (before ++ f.payload) f.fin (count_bytes s f)
    unfolding is_utf8
    settled-Counted tail q h e t = elim (Bool-cases f.fin) [
      | inl last ↦
          let answer : count_bytes s f
              ≡ (record s { opcode = none; bytes = 0; utf8_tail = tail }, ok tt) =
            ground arith in
          rw answer (
            inr (
              refl,
              refl,
              λ l. (
                refl,
                (
                  ground (arith, r.counted, length-append before f.payload),
                  λ txt. ground (arith, t txt),
                ),
              ),
              λ more. absurd (cc),
            ))
      | inr more ↦
          let answer : count_bytes s f
              ≡ (record s { bytes = s.bytes + length f.payload; utf8_tail = tail }, ok tt) =
            ground arith in
          rw answer (
            inr (
              refl,
              refl,
              λ l. absurd (cc),
              λ m. record {
                opcode = r.opcode;
                counted = ground (arith, r.counted, length-append before f.payload);
                bounded = ground (arith, r.counted, length-append before f.payload);
                state = q;
                tail = λ txt. let (one, two, three) = t txt in (one, two);
              },
            ))
    ]

    -- A fragment of a message that fits so far is counted.
    pub count_bytes-Counted :
        s.maximum < 2 ^ 64 → Counted op s.maximum (before ++ f.payload) f.fin (count_bytes s f)
    count_bytes-Counted small = elim (Bool-cases (ltb s.maximum (s.bytes + length f.payload))) [
      | inl over ↦ inl (
        frame_too_large,
        count_bytes_over (ground arith),
        λ rest last.
            too_long op s.maximum (before ++ f.payload) rest
              (ground (arith, r.counted, length-append before f.payload)),
      )
      | inr within ↦
          let sized : IsSized = (ground arith, small) in
          elim (Bool-cases (is_text (some op))) [
            | inr binary ↦
                settled-Counted s.utf8_tail boundary sized
                  (count_bytes_binary sized (rw r.opcode binary)) (λ txt. absurd (cc))
            | inl txt ↦
                let (tail, read) = r.tail txt in
                let grown : run boundary (before ++ f.payload) ≡ run r.state f.payload =
                  ground (arith, run-append boundary before f.payload) in
                by_slice txt (run r.state f.payload) grown
                  (validate_utf8-Accepted s.utf8_tail r.state f.payload f.fin tail) sized
          ]
    ]
      where
        by_slice :
            is_text (some op) ≡ true
            → (o : Option Utf8State) → run boundary (before ++ f.payload) ≡ o
            → Accepted o f.fin (validate_utf8 s.utf8_tail f.payload f.fin)
            → IsSized
            → Counted op s.maximum (before ++ f.payload) f.fin (count_bytes s f)
        by_slice txt none at bad sized = inl (
          invalid_utf8,
          count_bytes_bad sized (rw r.opcode txt) bad,
          λ rest last g. cc (g.1 txt, not_utf8 (before ++ f.payload) rest none at (inl refl)),
        )
        by_slice txt (some q) at (inl (cut, bad)) sized = inl (
          invalid_utf8,
          count_bytes_bad sized (rw r.opcode txt) bad,
          λ rest last g. cc (
            g.1 txt,
            not_utf8 (before ++ f.payload) rest (some q) at
                (inr (last (ground arith), (q, refl, ground arith))),
          ),
        )
        by_slice txt (some q) at (inr (closed, fine, tail)) sized =
            settled-Counted (validate_utf8 s.utf8_tail f.payload f.fin).0 q sized
              (count_bytes_text sized (rw r.opcode txt) fine) (λ t. (tail, at, closed))
