-- ===== src/Format/Packets.antt =====
-- The text of well-formed packets, and of a handshake.
use neptun.Common.{
  ℕ, zero, suc, ◌+◌, ◌^◌, ◌≤◌, ◌<◌, ◌≡◌, refl, ap, ◌∙◌, List, [], ◌∷◌, ◌++◌, append_assoc, All,
  length, none, some, Outcome, ok, fault, ◌>>=◌, arith, codes,
}
use neptun.Io.{Span, advance}
use neptun.Io.Encode.{advance-append}
use neptun.Messages.PacketHeader
use neptun.Messages.Segment
use neptun.Messages.MessageHeader
use neptun.Messages.LetsConnect
use neptun.Messages.ReliableMessage
use neptun.Messages.UnreliableMessage
use neptun.ReliableStream.Reading.{IsMessage}
use neptun.ReliableStream.Reading
use neptun.UnreliableStream.Reading.{IsPayload}
use neptun.UnreliableStream.Reading as Unreliable
use neptun.Format.{
  format_lets_connect, append_connection_manager_segment, reliable_text, unreliable_text,
  segment_text, header_text, append_reliable_segment, append_unreliable_segment, append_messages,
  append_segment, format_loop, format_neptun_payload,
}

-- A segment of messages, its bytes and its text.
pub data Part : Type 0 where
  reliable : List (ℕ × Span) → Part
  unreliable : List Span → Part

abbrev pub part_bytes : Part → Span
part_bytes (reliable ms) =
    Segment.encoding Segment.reliable_stream (length ms) ++ Reading.encodings ms
part_bytes (unreliable ps) =
    Segment.encoding Segment.unreliable_stream (length ps) ++ Unreliable.encodings ps

abbrev pub IsPart : Part → Type 0
IsPart (reliable ms) = (length ms < 2 ^ 8) × All IsMessage ms
IsPart (unreliable ps) = (length ps < 2 ^ 8) × All IsPayload ps

abbrev pub reliable_texts : List (ℕ × Span) → Span
reliable_texts [] = []
reliable_texts ((n, p) ∷ ms) = reliable_text n (length p) p ++ reliable_texts ms

abbrev pub unreliable_texts : List Span → Span
unreliable_texts [] = []
unreliable_texts (p ∷ ps) = unreliable_text (length p) p ++ unreliable_texts ps

abbrev pub part_text : Part → Span
part_text (reliable ms) = segment_text Segment.reliable_stream (length ms) ++ reliable_texts ms
part_text (unreliable ps) =
    segment_text Segment.unreliable_stream (length ps) ++ unreliable_texts ps

-- The bytes of the segments one after the other, and their texts with a separator in between.
abbrev pub parts_bytes : List Part → Span
parts_bytes [] = []
parts_bytes (p ∷ ps) = part_bytes p ++ parts_bytes ps

abbrev pub parts_text : Span → List Part → Span
parts_text sep [] = []
parts_text sep (p ∷ ps) = sep ++ (part_text p ++ parts_text (codes " ") ps)

reliable_lem :
    (ms : List (ℕ × Span)) (rest : Span)
    → All IsMessage ms
    → append_reliable_segment (length ms) (Reading.encodings ms ++ rest)
      ≡ ok (reliable_texts ms, rest)
unfolding append_reliable_segment
reliable_lem [] rest h = refl
reliable_lem ((n, p) ∷ ms) rest h =
    let others = Reading.encodings ms ++ rest in
    let here = ReliableMessage.encoding n p in
    let small = h.0.2 in
    ap (append_reliable_segment (suc (length ms))) (append_assoc here (Reading.encodings ms) rest)
    ∙ rw
        (
          ReliableMessage.size-encoding n p others small,
          advance-append (6 + length p) here others (omega arith),
          ReliableMessage.sequence_number-encoding n p others h.0.0,
          ReliableMessage.length_field-encoding n p others small,
          ReliableMessage.payload-encoding n p others small,
          reliable_lem ms rest h.1,
        )
        refl

unreliable_lem :
    (ps : List Span) (rest : Span)
    → All IsPayload ps
    → append_unreliable_segment (length ps) (Unreliable.encodings ps ++ rest)
      ≡ ok (unreliable_texts ps, rest)
unfolding append_unreliable_segment
unreliable_lem [] rest h = refl
unreliable_lem (p ∷ ps) rest h =
    let others = Unreliable.encodings ps ++ rest in
    let here = UnreliableMessage.encoding p in
    let small = h.0.1 in
    ap (append_unreliable_segment (suc (length ps)))
      (append_assoc here (Unreliable.encodings ps) rest)
    ∙ rw
        (
          UnreliableMessage.size-encoding p others small,
          advance-append (2 + length p) here others (omega arith),
          UnreliableMessage.length_field-encoding p others small,
          UnreliableMessage.payload-encoding p others small,
          unreliable_lem ps rest h.1,
        )
        refl

segment_lem :
    (part : Part) (rest : Span)
    → IsPart part
    → append_segment (part_bytes part ++ rest) ≡ ok (part_text part, rest)
unfolding append_segment append_messages
segment_lem (reliable ms) rest h =
    let behind = Reading.encodings ms ++ rest in
    rw
      (
        Segment.manager_type-encoding 3 (length ms) behind (omega arith),
        Segment.message_count-encoding 3 (length ms) behind h.0,
        advance-append 2 (Segment.encoding 3 (length ms)) behind refl,
        reliable_lem ms rest h.1,
      )
      refl
segment_lem (unreliable ps) rest h =
    let behind = Unreliable.encodings ps ++ rest in
    rw
      (
        Segment.manager_type-encoding 4 (length ps) behind (omega arith),
        Segment.message_count-encoding 4 (length ps) behind h.0,
        advance-append 2 (Segment.encoding 4 (length ps)) behind refl,
        unreliable_lem ps rest h.1,
      )
      refl

-- One round of the loop, at bytes that are there.
format_step :
    (fuel : ℕ) (sep rest : Span) (part : Part)
    → format_loop (suc fuel) sep (part_bytes part ++ rest) ≡ (
        append_segment (part_bytes part ++ rest) >>= λ r.
        format_loop fuel (codes " ") r.1 >>= λ more.
        ok (elim more [ none ↦ none | some others ↦ some (sep ++ (r.0 ++ others)) ]))
unfolding format_loop
format_step fuel sep rest (reliable ms) = refl
format_step fuel sep rest (unreliable ps) = refl

loop_lem :
    (fuel : ℕ) (sep : Span) (parts : List Part)
    → length parts ≤ fuel
    → All IsPart parts
    → format_loop fuel sep (parts_bytes parts) ≡ ok (some (parts_text sep parts))
loop_lem fuel sep [] h v = unfold format_loop in refl
loop_lem zero sep (part ∷ parts) h v = absurd (omega arith)
loop_lem (suc fuel) sep (part ∷ parts) h v =
    format_step fuel sep (parts_bytes parts) part
    ∙ rw
        (
          segment_lem part (parts_bytes parts) v.0,
          loop_lem fuel (codes " ") parts (omega (arith, h)) v.1,
        )
        refl

-- A packet of a header and any segments of well-formed messages, as the streams write them, is printed
-- whole: the numbers of the header, then for each segment its kind and count, and each message with its
-- number, its length and its bytes, in order. There are at least as many rounds as segments.
pub format_neptun_payload-encoding :
    (fuel id acks bitmask : ℕ) (parts : List Part)
    → id < 2 ^ 32
    → acks < 2 ^ 32
    → bitmask < 2 ^ 32
    → length parts ≤ fuel
    → All IsPart parts
    → format_neptun_payload fuel (PacketHeader.encoding id acks bitmask ++ parts_bytes parts)
      ≡ ok (some (header_text id acks bitmask ++ parts_text [] parts))
unfolding format_neptun_payload
format_neptun_payload-encoding fuel id acks bitmask parts i a b h v =
    let rest = parts_bytes parts in
    rw
      (
        advance-append 12 (PacketHeader.encoding id acks bitmask) rest refl,
        PacketHeader.id-encoding id acks bitmask rest i,
        PacketHeader.ack_sequence_number-encoding id acks bitmask rest a,
        PacketHeader.ack_bitmask-encoding id acks bitmask rest b,
        loop_lem fuel [] parts h v,
      )
      refl

fault_behind :
    {A B : Type 0} (m : Outcome A) (next : A → Outcome B)
    → ((a : A) → next a ≡ fault)
    → (m >>= next) ≡ fault
fault_behind fault next h = refl
fault_behind (ok a) next h = h a

lets_connect_cut : (message : Span) → length message ≤ 6 → format_lets_connect message ≡ fault
unfolding format_lets_connect
lets_connect_cut message h = fault_behind (advance message 6) _ λ _.
    fault_behind (LetsConnect.max_read_packet_rate message) _
      λ _. rw (LetsConnect.max_read_packet_size_cut message h) refl

-- A handshake of the size that `LetsConnect::write` reports, at the end of a packet, is not printed: the
-- walk reads past the end of the packet, since the last field of the handshake lies behind that size.
pub format_handshake_cut :
    (fuel id acks bitmask : ℕ) (message : Span)
    → length message ≤ LetsConnect.serialized_size
    → format_neptun_payload (suc fuel) (
        PacketHeader.encoding id acks bitmask
        ++ (Segment.encoding Segment.connection_manager 1 ++ (LetsConnect.k_id ∷ message)))
      ≡ fault
unfolding format_neptun_payload format_loop append_segment append_messages
    append_connection_manager_segment
format_handshake_cut fuel id acks bitmask message h =
    let segment : Span = Segment.encoding Segment.connection_manager 1 in
    let body : Span = LetsConnect.k_id ∷ message in
    let packet = PacketHeader.encoding id acks bitmask ++ (segment ++ body) in
    let first : append_segment (segment ++ body) ≡ fault =
      rw
        (
          Segment.manager_type-encoding 0 1 body (omega arith),
          Segment.message_count-encoding 0 1 body (omega arith),
          advance-append 2 segment body refl,
          advance-append 1 (LetsConnect.k_id ∷ []) message refl,
          MessageHeader.message_type-big_endian 0 message (omega arith),
          lets_connect_cut message h,
        )
        refl in
    rw (advance-append 12 (PacketHeader.encoding id acks bitmask) (segment ++ body) refl) (
      fault_behind (PacketHeader.id packet) _ λ _.
        fault_behind (PacketHeader.ack_sequence_number packet) _
          λ _. fault_behind (PacketHeader.ack_bitmask packet) _ λ _. rw first refl)
