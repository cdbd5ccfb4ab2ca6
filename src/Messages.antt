-- ===== src/Messages.antt =====
-- src/gateway/websocket_message.rs: the order of the fragments of a message, its size and its text.
pub mod Utf8
pub mod Scan
pub mod Partial
pub mod Sequence
pub mod Continue
pub mod Fragments
pub mod Order
mod Tests
use edge_gateway.Prelude.{
  ℕ, ◌+◌, ◌-◌, ◌^◌, Bool, true, false, not, ◌&&◌, ◌||◌, Option, none, some, [], ◌∷◌, ◌++◌, Result,
  ok, err, ◌>>=◌, ◌>>◌, refuse, ltb, leb, if◌then◌else◌, is_some, length, take, drop, min,
}
use edge_gateway.Prelude.Text.{Text}
use edge_gateway.Messages.Utf8.{valid, incomplete, malformed, from_utf8, width}

pub data OpCode : Type 0 where
  continuation text binary close ping pong : OpCode

-- The errors of `fastwebsockets` that the file names.
pub data WebSocketError : Type 0 where
  invalid_fragment invalid_continuation_frame frame_too_large invalid_utf8 : WebSocketError

pub record Frame : Type 0 where
  pub fin : Bool
  pub opcode : OpCode
  pub payload : Text

pub record MessageSequence : Type 0 where
  pub maximum : ℕ
  pub opcode : Option OpCode
  pub bytes : ℕ
  pub utf8_tail : Text

unfoldable pub new_sequence : ℕ → MessageSequence
new_sequence maximum = record { maximum = maximum; opcode = none; bytes = 0; utf8_tail = [] }

-- The slice behind the open character, and the tail then, or the error.
unfoldable pub validate_rest : Text → Bool → Text × Result WebSocketError (Unit {0})
validate_rest slice final = elim (from_utf8 slice) [
  | valid ↦ ([], ok tt)
  | incomplete valid_up_to ↦
      if final then ([], err invalid_utf8) else (drop valid_up_to slice, ok tt)
  | malformed valid_up_to ↦ ([], err invalid_utf8)
]

-- The new tail with the result.
unfoldable pub validate_utf8 : Text → Text → Bool → Text × Result WebSocketError (Unit {0})
validate_utf8 [] slice final = validate_rest slice final
validate_utf8 (first ∷ tail) slice final =
    let count = min (width first - length (first ∷ tail)) (length slice) in
    let tail' = (first ∷ tail) ++ take count slice in
    let rest = drop count slice in
    elim (from_utf8 tail') [
      | valid ↦ validate_rest rest final
      | incomplete valid_up_to ↦ (tail', if final then err invalid_utf8 else ok tt)
      | malformed valid_up_to ↦ (tail', err invalid_utf8)
    ]

abbrev pub is_text : Option OpCode → Bool
is_text none = false
is_text (some continuation) = false
is_text (some text) = true
is_text (some binary) = false
is_text (some close) = false
is_text (some ping) = false
is_text (some pong) = false

abbrev pub is_continuation : OpCode → Bool
is_continuation continuation = true
is_continuation text = false
is_continuation binary = false
is_continuation close = false
is_continuation ping = false
is_continuation pong = false

abbrev pub starts_message : OpCode → Bool
starts_message continuation = false
starts_message text = true
starts_message binary = true
starts_message close = false
starts_message ping = false
starts_message pong = false

-- The part of `validate` behind the `match` of the opcode.
unfoldable pub count_bytes :
    MessageSequence → Frame → MessageSequence × Result WebSocketError (Unit {0})
count_bytes s f =
    let total = s.bytes + length f.payload in
    let checked = validate_utf8 s.utf8_tail f.payload f.fin in
    if not (ltb total (2 ^ 64))
    then (s, err frame_too_large)
    else if ltb s.maximum total
    then (record s { bytes = total }, err frame_too_large)
    else (let next = record s {
      bytes = total;
      utf8_tail = if is_text s.opcode then checked.0 else s.utf8_tail;
    } in
        let result = if is_text s.opcode then checked.1 else ok tt in
        elim result [
          | err e ↦ (next, err e)
          | ok _ ↦ (if f.fin then record next { opcode = none; bytes = 0 } else next, ok tt)
        ])

start_message : MessageSequence → Frame → MessageSequence × Result WebSocketError (Unit {0})
unfolding count_bytes
start_message s f =
    if is_some s.opcode
    then (s, err invalid_fragment)
    else count_bytes (record s { opcode = some f.opcode; bytes = 0; utf8_tail = [] }) f

check_control : MessageSequence → Frame → MessageSequence × Result WebSocketError (Unit {0})
check_control s f = (s, if leb (length f.payload) 125 then ok tt else err frame_too_large)

-- The sequence after the call, and the result.
unfoldable pub validate :
    MessageSequence → Frame → MessageSequence × Result WebSocketError (Unit {0})
unfolding start_message check_control
validate s f = elim f.opcode [
  | text ↦ start_message s f
  | binary ↦ start_message s f
  | continuation ↦ if is_some s.opcode then count_bytes s f else (s, err invalid_continuation_frame)
  | close ↦ check_control s f
  | ping ↦ check_control s f
  | pong ↦ check_control s f
]

pub record BoundedMessages : Type 0 where
  pub sequence : MessageSequence
  pub fragments : Option (OpCode × Text)

unfoldable pub new_messages : ℕ → BoundedMessages
unfolding new_sequence
new_messages maximum = record { sequence = new_sequence maximum; fragments = none }

-- The arm of a continuation: the payload goes behind the buffer, which the last fragment empties. The
-- growth of the buffer's capacity is left out.
unfoldable pub continue_message :
    BoundedMessages → Frame → BoundedMessages × Result WebSocketError (Option Frame)
continue_message m f = elim m.fragments [
  | none ↦ (m, err invalid_continuation_frame)
  | some (opcode, buffer) ↦
      let total = length buffer + length f.payload in
      let whole = buffer ++ f.payload in
      if not (ltb total (2 ^ 64)) || ltb m.sequence.maximum total
      then (m, err frame_too_large)
      else if f.fin
      then (
        record m { fragments = none },
        ok (some (record { fin = true; opcode = opcode; payload = whole })),
      )
      else (record m { fragments = some (opcode, whole) }, ok none)
]

-- The messages after the call, and the result.
unfoldable pub collect :
    BoundedMessages → Frame → BoundedMessages × Result WebSocketError (Option Frame)
collect m f =
    let (sequence, checked) = validate m.sequence f in
    let next = record m { sequence = sequence } in
    elim checked [
      | err e ↦ (next, err e)
      | ok _ ↦
          if is_continuation f.opcode
          then continue_message next f
          else if starts_message f.opcode && not f.fin
          then (record next { fragments = some (f.opcode, f.payload) }, ok none)
          else (next, ok (some f))
    ]
