-- ===== src/Format.antt =====
-- neptun/format.h: the text of a packet, for display.
pub mod Ends
pub mod Packets
pub mod Tests
use neptun.Common.{
  ℕ, zero, suc, ◌+◌, ◌-◌, ◌/◌, ◌%◌, [], ◌∷◌, ◌++◌, ltb, ◌==◌, if◌then◌else◌, length, Option, none,
  some, Outcome, ok, fault, check, ◌>>=◌, ◌>>◌, codes,
}
use neptun.Io.{Span, advance}
use neptun.IpAddress.{to_decimal}
use neptun.Messages.PacketHeader
use neptun.Messages.Segment
use neptun.Messages.MessageHeader
use neptun.Messages.LetsConnect
use neptun.Messages.RejectLetsConnect
use neptun.Messages.ReliableMessage
use neptun.Messages.UnreliableMessage

-- A byte with `std::hex`, which has one digit or two.
abbrev hex_digit : ℕ → ℕ
hex_digit n = if ltb n 10 then b'0' + n else b'a' + (n - 10)

unfoldable pub hex : ℕ → Span
hex byte =
    if ltb byte 16 then hex_digit byte ∷ [] else hex_digit (byte / 16) ∷ hex_digit (byte % 16) ∷ []

-- The loop of `to_hex`.
unfoldable pub to_hex_loop : Span → Span → Span
unfolding hex
to_hex_loop sep [] = []
to_hex_loop sep (byte ∷ payload) = sep ++ (hex byte ++ to_hex_loop (codes " ") payload)

unfoldable pub to_hex : Span → Span
unfolding to_hex_loop
to_hex payload = to_hex_loop [] payload

unfoldable pub format_manager_type : ℕ → Span
format_manager_type manager_type =
    if manager_type == Segment.connection_manager
    then codes "ConnectionManager"
    else if manager_type == Segment.reliable_stream
    then codes "Reliable"
    else if manager_type == Segment.unreliable_stream
    then codes "Unreliable"
    else codes "Unknown"

-- Each part of the walk returns its text, and the payload that it leaves.
unfoldable pub format_lets_connect : Span → Outcome (Span × Span)
unfolding to_decimal
format_lets_connect payload = do
  rest ← advance payload LetsConnect.serialized_size
  read_rate ← LetsConnect.max_read_packet_rate payload
  read_size ← LetsConnect.max_read_packet_size payload
  send_rate ← LetsConnect.max_send_packet_rate payload
  send_size ← LetsConnect.max_send_packet_size payload
  ok (
    codes "[max_read_packet_rate="
        ++ (to_decimal read_rate
            ++ (codes ", max_read_packet_size="
                ++ (to_decimal read_size
                    ++ (codes ", max_send_packet_rate="
                        ++ (to_decimal send_rate
                            ++ (codes ", max_send_packet_size="
                                ++ (to_decimal send_size ++ codes "]"))))))),
    rest,
  )

unfoldable pub append_connection_manager_segment : Span → Outcome (Span × Span)
unfolding format_lets_connect
append_connection_manager_segment payload = do
  rest ← advance payload MessageHeader.serialized_size
  message_type ← MessageHeader.message_type payload
  if message_type == LetsConnect.k_id
      then format_lets_connect rest
      else if message_type == RejectLetsConnect.k_id
      then ok (codes "[RejectLetsConnect]", rest)
      else ok ([], rest)

-- What is printed of one message.
unfoldable pub reliable_text : ℕ → ℕ → Span → Span
unfolding to_decimal to_hex
reliable_text sequence_number length payload =
    codes "[seq_num="
    ++ (to_decimal sequence_number
        ++ (codes ", length="
            ++ (to_decimal length ++ (codes ", payload=" ++ (to_hex payload ++ codes "]")))))

unfoldable pub unreliable_text : ℕ → Span → Span
unfolding to_decimal to_hex
unreliable_text length payload =
    codes "[length=" ++ (to_decimal length ++ (codes ", payload=" ++ (to_hex payload ++ codes "]")))

unfoldable pub append_reliable_segment : ℕ → Span → Outcome (Span × Span)
unfolding reliable_text
append_reliable_segment zero payload = ok ([], payload)
append_reliable_segment (suc n) payload = do
  size ← ReliableMessage.size payload
  rest ← advance payload size
  sequence_number ← ReliableMessage.sequence_number payload
  length ← ReliableMessage.length payload
  bytes ← ReliableMessage.payload payload
  (text, left) ← append_reliable_segment n rest
  ok (reliable_text sequence_number length bytes ++ text, left)

unfoldable pub append_unreliable_segment : ℕ → Span → Outcome (Span × Span)
unfolding unreliable_text
append_unreliable_segment zero payload = ok ([], payload)
append_unreliable_segment (suc n) payload = do
  size ← UnreliableMessage.size payload
  rest ← advance payload size
  length ← UnreliableMessage.length payload
  bytes ← UnreliableMessage.payload payload
  (text, left) ← append_unreliable_segment n rest
  ok (unreliable_text length bytes ++ text, left)

-- The `switch` of `append_segment`. It throws for a manager that does not exist.
unfoldable pub append_messages : ℕ → ℕ → Span → Outcome (Span × Span)
unfolding append_connection_manager_segment append_reliable_segment append_unreliable_segment
append_messages manager_type message_count payload =
    if manager_type == Segment.connection_manager
    then (check (message_count == 1) >> append_connection_manager_segment payload)
    else if manager_type == Segment.reliable_stream
    then append_reliable_segment message_count payload
    else if manager_type == Segment.unreliable_stream
    then append_unreliable_segment message_count payload
    else fault

unfoldable pub segment_text : ℕ → ℕ → Span
unfolding format_manager_type to_decimal
segment_text manager_type message_count =
    codes "["
    ++ (format_manager_type manager_type
        ++ (codes ", msg_count=" ++ (to_decimal message_count ++ codes "]")))

unfoldable pub append_segment : Span → Outcome (Span × Span)
unfolding segment_text append_messages
append_segment payload = do
  manager_type ← Segment.manager_type payload
  message_count ← Segment.message_count payload
  rest ← advance payload Segment.serialized_size
  (text, left) ← append_messages manager_type message_count rest
  ok (segment_text manager_type message_count ++ text, left)

-- The loop over the segments, with `fuel` rounds at most: `none` says that they were not enough.
unfoldable pub format_loop : ℕ → Span → Span → Outcome (Option Span)
unfolding append_segment
format_loop fuel sep [] = ok (some [])
format_loop zero sep (byte ∷ payload) = ok none
format_loop (suc fuel) sep (byte ∷ payload) = do
  (text, rest) ← append_segment (byte ∷ payload)
  more ← format_loop fuel (codes " ") rest
  ok (elim more [ none ↦ none | some others ↦ some (sep ++ (text ++ others)) ])

unfoldable pub header_text : ℕ → ℕ → ℕ → Span
unfolding to_decimal
header_text id ack_sequence_number ack_bitmask =
    codes "[packet_id="
    ++ (to_decimal id
        ++ (codes ", ack_seq_num="
            ++ (to_decimal ack_sequence_number
                ++ (codes ", ack_bitmask=" ++ (to_decimal ack_bitmask ++ codes "] ")))))

unfoldable pub format_neptun_payload : ℕ → Span → Outcome (Option Span)
unfolding header_text format_loop
format_neptun_payload fuel payload = do
  rest ← advance payload PacketHeader.serialized_size
  id ← PacketHeader.id payload
  ack_sequence_number ← PacketHeader.ack_sequence_number payload
  ack_bitmask ← PacketHeader.ack_bitmask payload
  segments ← format_loop fuel [] rest
  ok (elim segments [
    | none ↦ none
    | some text ↦ some (header_text id ack_sequence_number ack_bitmask ++ text)
  ])
