-- ===== src/Messages/Tests.antt =====
-- Runs of the message code, and its theorems at a message whose character is split over two frames.
use edge_gateway.Prelude.{
  ◌≡◌, ◌↔◌, ◌<◌, ◌≤◌, ◌^◌, refl, true, false, some, none, List, [], ◌∷◌, ok, err, arith, is_some,
  length,
}
use edge_gateway.Prelude.Text.{Text}
use edge_gateway.Messages.Utf8.{step, run, scan, from_utf8, is_utf8}
use edge_gateway.Messages.{
  text, starts_message, is_continuation, invalid_fragment, invalid_utf8, invalid_continuation_frame,
  frame_too_large, Frame, MessageSequence, new_sequence, new_messages, validate_rest, validate_utf8,
  count_bytes, validate, continue_message, collect,
}
use edge_gateway.Messages.Continue.{Delivered, fragments_of, collect_all, joined}
use edge_gateway.Messages.Fragments.{fragments-Delivered}
use edge_gateway.Messages.Order.{is_control, validate-order}

-- Opens what a run of the message code calls.
run_all : Unit {0}
unfolding step run scan from_utf8 is_utf8 new_sequence new_messages validate_rest validate_utf8
    count_bytes validate continue_message collect collect_all
run_all = tt

-- An umlaut and a letter, cut inside the umlaut.
abbrev pieces : List Text
pieces = (0xBC ∷ 0x61 ∷ []) ∷ []

joined_test :
    (collect_all (new_messages 3) (fragments_of text (0xC3 ∷ []) pieces)).1
    ≡ ok (record { fin = true; opcode = text; payload = 0xC3 ∷ 0xBC ∷ 0x61 ∷ [] } ∷ [])
unfolding run_all
joined_test = refl

refused_tests :
    ((collect_all (new_messages 2) (fragments_of text (0xC3 ∷ []) pieces)).1 ≡ err frame_too_large)
    × ((collect_all (new_messages 3) (fragments_of text (0xC3 ∷ []) [])).1 ≡ err invalid_utf8)
unfolding run_all
refused_tests = (refl, refl)

utf8_tests :
    (is_utf8 (0xED ∷ 0xA0 ∷ 0x80 ∷ []) ≡ false)
    × (is_utf8 (0xF0 ∷ 0x9F ∷ 0x98 ∷ 0x80 ∷ []) ≡ true)
    × (is_utf8 (0xC0 ∷ 0x80 ∷ []) ≡ false)
    × (is_utf8 (0xF4 ∷ 0x90 ∷ 0x80 ∷ 0x80 ∷ []) ≡ false)
unfolding run_all
utf8_tests = (refl, refl, refl, refl)

idle_is : (new_messages 3).sequence.opcode ≡ none
unfolding run_all
idle_is = refl

small : (new_messages 3).sequence.maximum < 2 ^ 64
unfolding run_all
small = omega arith

fragments-Delivered_example :
    Delivered text
      (new_messages 3).sequence.maximum
      (joined ((0xC3 ∷ []) ∷ pieces))
      (collect_all (new_messages 3) (fragments_of text (0xC3 ∷ []) pieces))
fragments-Delivered_example =
    fragments-Delivered (new_messages 3) text (0xC3 ∷ []) pieces refl idle_is small

abbrev reading : MessageSequence
reading = record { maximum = 9; opcode = some text; bytes = 1; utf8_tail = [] }

abbrev frame : Frame
frame = record { fin = true; opcode = text; payload = [] }

validate-order_example :
    (((validate reading frame).1 ≡ err invalid_fragment)
      ↔ ((starts_message frame.opcode ≡ true) × (is_some reading.opcode ≡ true)))
    × (((validate reading frame).1 ≡ err invalid_continuation_frame)
        ↔ ((is_continuation frame.opcode ≡ true) × (is_some reading.opcode ≡ false)))
    × (is_control frame.opcode ≡ true
        → ((validate reading frame).0 ≡ reading)
          × (((validate reading frame).1 ≡ ok tt) ↔ (length frame.payload ≤ 125)))
validate-order_example = validate-order reading frame
