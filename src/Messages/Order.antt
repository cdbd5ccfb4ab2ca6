-- ===== src/Messages/Order.antt =====
-- src/gateway/websocket_message.rs: the frames that are out of order.
use edge_gateway.Prelude.{
  ◌≡◌, ◌↔◌, ◌⊎◌, refl, true, false, some, [], ◌∷◌, min, ◌-◌, drop, ok, err, is_some, arith, Result,
  Bool, ◌≤◌, length, ◌&&◌,
}
use edge_gateway.Prelude.Text.{Text}
use edge_gateway.Messages.{
  OpCode, continuation, text, binary, close, ping, pong, WebSocketError, invalid_fragment,
  invalid_continuation_frame, frame_too_large, invalid_utf8, Frame, MessageSequence, validate_rest,
  validate_utf8, count_bytes, validate, starts_message, is_continuation, ◌∷◌, width, not,
}

-- The errors about the bytes of a frame, not its place.
abbrev IsPlaced : Result WebSocketError (Unit {0}) → Type 0
IsPlaced answer = (answer ≡ ok tt) ⊎ (answer ≡ err frame_too_large) ⊎ (answer ≡ err invalid_utf8)

validate_rest-IsPlaced : (slice : Text) (final : Bool) → IsPlaced (validate_rest slice final).1
unfolding validate_rest
validate_rest-IsPlaced slice final = ground arith

validate_utf8-IsPlaced :
    (tail slice : Text) (final : Bool) → IsPlaced (validate_utf8 tail slice final).1
unfolding validate_utf8
validate_utf8-IsPlaced [] slice final = validate_rest-IsPlaced slice final
validate_utf8-IsPlaced (first ∷ tail) slice final =
    let count = min (width first - length (first ∷ tail)) (length slice) in
    ground (arith, validate_rest-IsPlaced (drop count slice) final)

count_bytes-IsPlaced : (s : MessageSequence) (f : Frame) → IsPlaced (count_bytes s f).1
unfolding count_bytes
count_bytes-IsPlaced s f = ground (arith, validate_utf8-IsPlaced s.utf8_tail f.payload f.fin)

abbrev pub is_control : OpCode → Bool
is_control op = not (starts_message op) && not (is_continuation op)

-- A frame is an invalid fragment exactly when it begins a message inside another one, an invalid
-- continuation exactly when it continues none; and a control frame, which is accepted exactly up to 125
-- bytes, leaves the message that it interrupts as it was.
pub validate-order :
    (s : MessageSequence) (f : Frame)
    → (((validate s f).1 ≡ err invalid_fragment)
        ↔ ((starts_message f.opcode ≡ true) × (is_some s.opcode ≡ true)))
      × (((validate s f).1 ≡ err invalid_continuation_frame)
          ↔ ((is_continuation f.opcode ≡ true) × (is_some s.opcode ≡ false)))
      × (is_control f.opcode ≡ true
          → ((validate s f).0 ≡ s) × (((validate s f).1 ≡ ok tt) ↔ (length f.payload ≤ 125)))
unfolding validate
validate-order s f = by_opcode f.opcode refl
  where
    by_opcode :
        (op : OpCode)
        → f.opcode ≡ op
        → (((validate s f).1 ≡ err invalid_fragment)
            ↔ ((starts_message f.opcode ≡ true) × (is_some s.opcode ≡ true)))
          × (((validate s f).1 ≡ err invalid_continuation_frame)
              ↔ ((is_continuation f.opcode ≡ true) × (is_some s.opcode ≡ false)))
          × (is_control f.opcode ≡ true
              → ((validate s f).0 ≡ s) × (((validate s f).1 ≡ ok tt) ↔ (length f.payload ≤ 125)))
    by_opcode continuation e = ground (arith, count_bytes-IsPlaced s f)
    by_opcode text e = ground (
      arith,
      count_bytes-IsPlaced (record s { opcode = some f.opcode; bytes = 0; utf8_tail = [] }) f,
    )
    by_opcode binary e = ground (
      arith,
      count_bytes-IsPlaced (record s { opcode = some f.opcode; bytes = 0; utf8_tail = [] }) f,
    )
    by_opcode close e = ground arith
    by_opcode ping e = ground arith
    by_opcode pong e = ground arith
