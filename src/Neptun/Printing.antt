-- ===== src/Neptun/Printing.antt =====
-- The text that neptun/format.h prints of a packet that neptun/neptun.h writes.
pub mod Tests
use neptun.Common.{
  ℕ, ◌+◌, ◌^◌, ◌≤◌, ◌<◌, ◌≡◌, refl, sym, ap, ◌∙◌, ◌++◌, List, [], ◌∷◌, All, length, some, ok, arith,
  append-nil, append_assoc,
}
use neptun.Io.{Span}
use neptun.Messages.PacketHeader
use neptun.Messages.Segment
use neptun.ReliableStream.Reading.{encodings}
use neptun.UnreliableStream.{UnreliableStream}
use neptun.UnreliableStream.Segments.{segment}
use neptun.UnreliableStream.Reading.{IsPayload}
use neptun.Format.{format_neptun_payload, header_text}
use neptun.Format.Packets.{
  Part, reliable, unreliable, IsPart, parts_bytes, parts_text, format_neptun_payload-encoding,
}
use neptun.Neptun.{Peer}
use neptun.Neptun.Writing.{write_packet}
use neptun.Neptun.Delivery.{after_write}
use neptun.Neptun.Exchange.{
  IsReady, messages_sent, payloads_sent, packet_sent, write_packet_sent, messages_sent-IsMessage,
  messages_sent-lt, payloads_sent-IsPayload, payloads_sent-lt,
}

-- The segments of a packet: that of the unreliable messages is left out if there are none.
abbrev pub unreliable_parts : List Span → List Part
unreliable_parts [] = []
unreliable_parts (p ∷ ps) = unreliable (p ∷ ps) ∷ []

abbrev pub parts_sent : Peer → Span → List Part
parts_sent p buffer = reliable (messages_sent p buffer) ∷ unreliable_parts (payloads_sent p buffer)

length-unreliable_parts : (ps : List Span) → length (unreliable_parts ps) ≤ 1
length-unreliable_parts [] = omega arith
length-unreliable_parts (p ∷ ps) = omega arith

parts_bytes-unreliable : (ps : List Span) → parts_bytes (unreliable_parts ps) ≡ segment ps
parts_bytes-unreliable [] = refl
parts_bytes-unreliable (p ∷ ps) = append-nil (segment (p ∷ ps))

unreliable_parts-IsPart :
    (ps : List Span) → length ps < 2 ^ 8 → All IsPayload ps → All IsPart (unreliable_parts ps)
unreliable_parts-IsPart [] h good = tt
unreliable_parts-IsPart (p ∷ ps) h good = ((h, good), tt)

-- The bytes of the packet are those of its segments.
packet_sent-parts :
    (p : Peer) (buffer : Span)
    → packet_sent p buffer
      ≡ PacketHeader.encoding p.packet_delivery_manager.next_outgoing_packet_id 0 0
        ++ parts_bytes (parts_sent p buffer)
packet_sent-parts p buffer =
    let messages = messages_sent p buffer in
    let header = PacketHeader.encoding p.packet_delivery_manager.next_outgoing_packet_id 0 0 in
    let segment_3 = Segment.encoding Segment.reliable_stream (length messages) in
    let payloads = payloads_sent p buffer in
    ap (λ (t : Span). header ++ (segment_3 ++ (encodings messages ++ t)))
      (sym (parts_bytes-unreliable payloads))
    ∙ ap (λ (t : Span). header ++ t)
        (sym
          (append_assoc segment_3 (encodings messages) (parts_bytes (unreliable_parts payloads))))

-- What a peer writes can be printed. A peer without acks and handshakes to send, of whose reliable messages
-- at least one fits, writes a packet that `format_neptun_payload` prints whole: its id, then the segment of
-- the reliable messages and, if there are any, that of the unreliable ones, with each message that was
-- sent, in order. Two rounds of the loop are enough.
pub format_neptun_payload-write_packet :
    (p : Peer) (oldest now fuel : ℕ) (buffer : Span)
    → IsReady p oldest buffer
    → 2 ≤ fuel
    → (packet left : Span) × (u : UnreliableStream) × (write_packet now p buffer
        ≡ ok (packet ++ left, length packet, after_write p now buffer u))
      × (format_neptun_payload fuel packet
          ≡ ok (
              some (
                header_text p.packet_delivery_manager.next_outgoing_packet_id 0 0
                ++ parts_text [] (parts_sent p buffer))))
format_neptun_payload-write_packet p oldest now fuel buffer ready enough =
    let (packet, left, u, run, shape, _, _) = write_packet_sent p oldest now buffer ready in
    let payloads = payloads_sent p buffer in
    (
      packet,
      left,
      u,
      run,
      ap (format_neptun_payload fuel) (shape ∙ packet_sent-parts p buffer)
          ∙ format_neptun_payload-encoding fuel p.packet_delivery_manager.next_outgoing_packet_id 0
              0 (parts_sent p buffer) ready.id_lt (omega arith) (omega arith)
              (omega (arith, enough, length-unreliable_parts payloads))
              (
                (
                  messages_sent-lt p oldest buffer ready,
                  messages_sent-IsMessage p oldest buffer ready,
                ),
                unreliable_parts-IsPart payloads (payloads_sent-lt p oldest buffer ready)
                    (payloads_sent-IsPayload p oldest buffer ready),
              ),
    )
