-- ===== src/Neptun/Misread.antt =====
-- A handshake with messages behind it: the first of their bytes takes the place of its last one.
pub mod Tests
use neptun.Common.{
  ℕ, ◌+◌, ◌-◌, ◌*◌, ◌/◌, ◌%◌, ◌^◌, ◌≤◌, ◌<◌, ◌≡◌, refl, sym, ap, ap₂, subst, ◌∙◌, List, [], ◌∷◌,
  ◌++◌, append-nil, take, drop, length, ◌==◌, some, ok, arith, Bool-cases, inl, inr, All, false,
  value,
}
use neptun.Io.{Span}
use neptun.Io.Encode.{advance-append}
use neptun.Messages.PacketHeader
use neptun.Messages.Segment
use neptun.Metrics.{NeptunMetrics}
use neptun.Connection.{ConnectionManager, ConnectionManagerConfig, BandwidthLimit}
use neptun.Connection
use neptun.Connection.Handshake.{InFields, packet, informed}
use neptun.Connection.Agreement
use neptun.Connection.Agreement.{read_overwritten}
use neptun.ReliableStream.{ReliableStream}
use neptun.ReliableStream
use neptun.ReliableStream.Invariant.{IsValid, texts}
use neptun.ReliableStream.Writing.{fitting}
use neptun.ReliableStream.Packing.{
  body, packed, write_lem, fitting_inside, fitting-IsMessage, fitting_within,
}
use neptun.ReliableStream.Fitting.{length-encodings, length-texts}
use neptun.ReliableStream.Reading.{encodings, delivered, IsMessage, next_after}
use neptun.UnreliableStream
use neptun.Neptun.{Peer, process_delivery_statuses, update_send_rate}
use neptun.Neptun.Reading.{read_packet, read_connection, send_rate}
use neptun.Neptun.Writing.{write_packet}
use neptun.Neptun.Packets.{accepted, process_read_without_acks}
use neptun.Neptun.Delivery.{
  read_reliable_lem, connected, set_send_rate_lem, update_send_rate-reliable_stream,
}
use neptun.Neptun.Greeting.{
  IsGreeting, after_greeting, connection_greeting, write_greeting, last_byte,
}

-- The limits that are read: the type of the segment is the low byte of the size.
abbrev pub misread : BandwidthLimit → BandwidthLimit
misread l = record l {
  max_read_packet_size = l.max_read_packet_size / 256 * 256 + Segment.reliable_stream;
}

-- The peer after it has read such a packet.
abbrev pub after_misread :
    ConnectionManagerConfig → Peer → BandwidthLimit → ℕ → List (ℕ × Span) → Peer
after_misread config q l id messages =
    let rate = send_rate l.max_read_packet_rate config.limit.max_send_packet_rate in
    record (update_send_rate
      (record q {
        packet_delivery_manager = accepted q.packet_delivery_manager id;
        connection_manager = informed q.connection_manager (misread l);
      })
      rate) {
        reliable_stream = record (q.reliable_stream) {
          next_expected_sequence_number =
              next_after q.reliable_stream.next_expected_sequence_number messages;
        };
      }

no_more : UnreliableStream.read [] ≡ ok (value 0, [])
unfolding UnreliableStream.read
no_more = refl

read_misread :
    (config : ConnectionManagerConfig) (q : Peer) (metrics : NeptunMetrics) (l : BandwidthLimit)
    (id gap : ℕ) (messages : List (ℕ × Span))
    → InFields l
    → 100 ≤ l.max_send_packet_size
    → 2 ^ 8 ≤ l.max_read_packet_size
    → id < 2 ^ 32
    → q.packet_delivery_manager.next_expected_packet_id ≤ id
    → length messages < 2 ^ 8
    → All IsMessage messages
    → read_packet config q metrics (
        PacketHeader.encoding id 0 0
        ++ (take 9 (packet l gap)
            ++ (Segment.encoding Segment.reliable_stream (length messages)
                ++ (encodings messages ++ []))))
      ≡ ok (
        after_misread config q l id messages,
        metrics,
        record {
          reliable = delivered q.reliable_stream.next_expected_sequence_number messages;
          unreliable = [];
        },
      )
unfolding read_packet read_connection process_delivery_statuses
read_misread config q metrics l id gap messages v large larger word next byte good =
    let text =
      Segment.encoding Segment.reliable_stream (length messages) ++ (encodings messages ++ []) in
    let front = take 9 (packet l gap) in
    let rate = send_rate l.max_read_packet_rate config.limit.max_send_packet_rate in
    let peer : Peer = record q {
      packet_delivery_manager = accepted q.packet_delivery_manager id;
      connection_manager = informed q.connection_manager (misread l);
    } in
    rw
      (
        process_read_without_acks q.packet_delivery_manager id (front ++ text) word next,
        advance-append 12 (PacketHeader.encoding id 0 0) (front ++ text) refl,
        read_overwritten q.connection_manager l gap 3 (drop 1 text) v (omega arith) large larger,
        advance-append 9 front text refl,
        read_reliable_lem (update_send_rate peer rate) messages [] [] byte good no_more,
        update_send_rate-reliable_stream peer rate,
      )
      refl

-- The connection manager does not depend on the rate.
after_misread-limit :
    (config : ConnectionManagerConfig) (q : Peer) (l : BandwidthLimit) (id : ℕ)
    (messages : List (ℕ × Span))
    → (after_misread config q l id messages).connection_manager.peer_bandwidth_limit
      ≡ some (misread l)
unfolding update_send_rate
after_misread-limit config q l id messages =
    let rate = send_rate l.max_read_packet_rate config.limit.max_send_packet_rate in
    elim (Bool-cases (rate == 0)) [
      | inl zero_rate ↦ rw zero_rate refl
      | inr positive ↦ rw positive refl
    ]

-- The messages of the packet, if the reliable stream has that much room.
abbrev pub messages_behind : Peer → ℕ → List (ℕ × Span)
messages_behind p room =
    texts p.reliable_stream.buffer (fitting room 2 p.reliable_stream.pending_messages)

-- A peer with a handshake, of whose reliable messages at least one fits behind it.
pub record IsAnswering (p : Peer) (oldest : ℕ) (buffer : Span) : Type 0 where
  pub greeting : IsGreeting p
  pub valid : IsValid p.reliable_stream oldest
  pub oldest_lt : oldest < 2 ^ 32
  pub small : length p.reliable_stream.buffer.bytes < 2 ^ 16
  pub room : 22 ≤ length buffer
  pub top : length buffer < 1815
  pub some_fit : 0 < length (messages_behind p (length buffer - 21))

-- What is written, and what is made of it.
abbrev Misread : ConnectionManagerConfig → Peer → Peer → NeptunMetrics → ℕ → Span → ℕ → Type 0
Misread config p q metrics now buffer room =
    let id = p.packet_delivery_manager.next_outgoing_packet_id in
    let l = p.connection_manager.config.limit in
    let messages = messages_behind p room in
    (sent left : Span) × (s : ReliableStream) × (q' : Peer) × (write_packet now p buffer
      ≡ ok (sent ++ left, length sent, after_greeting p now s))
    × (read_packet config q metrics sent
        ≡ ok (
          q',
          metrics,
          record {
            reliable = delivered q.reliable_stream.next_expected_sequence_number messages;
            unreliable = [];
          },
        ))
    × (q'.connection_manager.peer_bandwidth_limit ≡ some (misread l))

write-Misread :
    (config : ConnectionManagerConfig) (p q : Peer) (metrics : NeptunMetrics) (oldest now gap : ℕ)
    (buffer rest : Span)
    → IsAnswering p oldest buffer
    → let id = p.packet_delivery_manager.next_outgoing_packet_id in
      let l = p.connection_manager.config.limit in
      let tail = last_byte l ∷ rest in
      100 ≤ l.max_send_packet_size
      → 2 ^ 8 ≤ l.max_read_packet_size
      → q.packet_delivery_manager.next_expected_packet_id ≤ id
      → Connection.write p.connection_manager id (drop 12 buffer)
        ≡ ok (take 9 (packet l gap) ++ tail, 9, Agreement.written p.connection_manager id)
      → length tail ≡ length buffer - 21
      → Misread config p q metrics now buffer (length tail)
write-Misread config p q metrics oldest now gap buffer rest h large larger next greeted size =
    let id = p.packet_delivery_manager.next_outgoing_packet_id in
    let l = p.connection_manager.config.limit in
    let stream = p.reliable_stream in
    let tail = last_byte l ∷ rest in
    let fit = fitting (length tail) 2 stream.pending_messages in
    let messages = texts stream.buffer fit in
    let text = body stream.buffer fit in
    let s = (packed stream id tail).2 in
    let count : length messages ≡ length fit = length-texts stream.buffer fit in
    let fits : 0 < length messages =
      subst (λ (n : ℕ). 0 < length (messages_behind p n)) (sym size) h.some_fit in
    let something : (length fit == 0) ≡ false = ground (arith, count, fits) in
    let wrote : ReliableStream.write stream id tail
        ≡ ok (text ++ drop (length text) tail, length text, s) =
      write_lem stream oldest h.valid h.small tail id (omega (arith, size, h.top))
      ∙ rw something refl in
    let within = fitting_within stream oldest h.valid h.small tail something in
    let inside = fitting_inside stream oldest h.valid h.small tail in
    let byte : length messages < 2 ^ 8 =
      omega (arith, count, within, length-encodings stream.buffer fit inside, size, h.top) in
    let header = PacketHeader.encoding id 0 0 in
    let front = take 9 (packet l gap) in
    let shape : header ++ (front ++ text)
        ≡ header
          ++ (front
              ++ (Segment.encoding Segment.reliable_stream (length messages)
                  ++ (encodings messages ++ []))) =
      ap₂
        (λ (n : ℕ) (t : Span).
          header ++ (front ++ (Segment.encoding Segment.reliable_stream n ++ t)))
        (sym count) (sym (append-nil (encodings messages))) in
    (
      header ++ (front ++ text),
      drop (length text) tail,
      s,
      after_misread config q l id messages,
      write_greeting p now gap l buffer tail text (drop (length text) tail) s h.greeting
          (omega (arith, h.room)) greeted wrote,
      ap (read_packet config q metrics) shape
          ∙ read_misread config q metrics l id gap messages h.greeting.in_fields large larger
              h.greeting.id_lt next byte
              (fitting-IsMessage stream oldest h.valid h.small tail h.oldest_lt),
      after_misread-limit config q l id messages,
    )

-- A handshake with messages behind it is read wrong. A peer that has a handshake to send, not failed and
-- with limits that fit their fields, but no acks and no unreliable messages, and a valid stream of which
-- at least one reliable message fits behind the handshake, writes a packet into a span of 22 to 1814
-- bytes, in which the first byte of the messages' segment stands in the place of the last byte of the
-- handshake. A peer that has not seen a later packet reads it without an error, and gives its callback
-- the messages that come next, but the limit that it takes for the size of the packets that the sender
-- reads has 3, the type of the segment, for its low byte, if the sender's limits are at least 100 for
-- the size of what it sends and at least 256 for that of what it reads.
pub handshake_overwritten :
    (config : ConnectionManagerConfig) (p q : Peer) (metrics : NeptunMetrics) (oldest now : ℕ)
    (buffer : Span)
    → IsAnswering p oldest buffer
    → let id = p.packet_delivery_manager.next_outgoing_packet_id in
      let l = p.connection_manager.config.limit in
      let messages = messages_behind p (length buffer - 21) in
      100 ≤ l.max_send_packet_size
      → 2 ^ 8 ≤ l.max_read_packet_size
      → q.packet_delivery_manager.next_expected_packet_id ≤ id
      → (sent left : Span) × (s : ReliableStream) × (q' : Peer) × (write_packet now p buffer
          ≡ ok (sent ++ left, length sent, after_greeting p now s))
        × (read_packet config q metrics sent
            ≡ ok (
              q',
              metrics,
              record {
                reliable = delivered q.reliable_stream.next_expected_sequence_number messages;
                unreliable = [];
              },
            ))
        × (q'.connection_manager.peer_bandwidth_limit
            ≡ some (record l { max_read_packet_size = l.max_read_packet_size / 256 * 256 + 3 }))
handshake_overwritten config p q metrics oldest now buffer h large larger next =
    let (gap, rest, greeted, long) = connection_greeting p buffer h.greeting h.room in
    let tail = last_byte p.connection_manager.config.limit ∷ rest in
    let size : length tail ≡ length buffer - 21 = omega (arith, long) in
    subst (Misread config p q metrics now buffer) size
      (write-Misread config p q metrics oldest now gap buffer rest h large larger next greeted size)
