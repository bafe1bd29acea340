-- ===== src/Neptun/Exchange.antt =====
-- What one peer writes the other reads, with the fake network between them.
use neptun.Common.{
  ℕ, ◌+◌, ◌^◌, ◌≤◌, ◌<◌, ◌≡◌, refl, sym, ap, ap₂, ◌-◌, ◌∙◌, ◌++◌, drop, length, ◌==◌, some, ok,
  arith, Bool-cases, subst, All, ==_iff, inl, inr, length-append, length-drop, List, append_assoc,
  value,
}
use neptun.Io.{Span}
use neptun.Messages.PacketHeader
use neptun.Messages.Segment
use neptun.Metrics.{NeptunMetrics}
use neptun.Connection.{ConnectionManagerConfig, BandwidthLimit}
use neptun.ReliableStream.{BufferRange}
use neptun.ReliableStream.Invariant.{IsValid, texts}
use neptun.ReliableStream.Writing.{fitting}
use neptun.ReliableStream.Packing.{body, packed, fitting_inside, fitting-IsMessage, fitting_within}
use neptun.ReliableStream.Fitting.{length-encodings, length-texts}
use neptun.ReliableStream.Reading.{encodings, delivered, IsMessage}
use neptun.UnreliableStream.{UnreliableStream}
use neptun.UnreliableStream
use neptun.UnreliableStream.Writing.{payloads}
use neptun.UnreliableStream.Packets.{fitting-IsPayload, length-payloads}
use neptun.UnreliableStream.Segments.{segment, write_any}
use neptun.UnreliableStream.Reading.{IsPayload}
use neptun.UnreliableStream.Writing
use neptun.UnreliableStream.Packets
use neptun.Neptun.{Peer}
use neptun.Neptun.Reading.{read_packet}
use neptun.Neptun.Writing.{write_packet}
use neptun.Neptun.Delivery.{IsPlain, after_write, after_read, write_packet_lem, read_packet_lem}

-- The messages of the packet that a peer writes into a buffer.
abbrev pub messages_sent : Peer → Span → List (ℕ × Span)
messages_sent p buffer =
    texts p.reliable_stream.buffer
      (fitting (length (drop 12 buffer)) 2 p.reliable_stream.pending_messages)

-- How many bytes of the reliable stream the packet has.
abbrev reliable_size : Peer → Span → ℕ
reliable_size p buffer =
    (packed p.reliable_stream p.packet_delivery_manager.next_outgoing_packet_id (drop 12 buffer)).1

-- The unreliable messages of the packet, which take the room that the reliable ones leave.
abbrev unreliable_fitting : Peer → Span → List BufferRange
unreliable_fitting p buffer =
    Writing.fitting (length (drop 12 buffer) - reliable_size p buffer) 2
      p.unreliable_stream.pending_messages

abbrev pub payloads_sent : Peer → Span → List Span
payloads_sent p buffer = payloads p.unreliable_stream.buffer (unreliable_fitting p buffer)

-- A peer that can write a packet into a buffer: it has no handshake and no acks to send, at least one
-- reliable message fits, and no more unreliable ones than a byte can count.
pub record IsReady (p : Peer) (oldest : ℕ) (buffer : Span) : Type 0 where
  pub plain : IsPlain p
  pub id_lt : p.packet_delivery_manager.next_outgoing_packet_id < 2 ^ 32
  pub valid : IsValid p.reliable_stream oldest
  pub oldest_lt : oldest < 2 ^ 32
  pub small : length p.reliable_stream.buffer.bytes < 2 ^ 16
  pub room : 12 ≤ length buffer
  pub top : length buffer < 1806
  pub some_fit : 0 < reliable_size p buffer
  pub unreliable_valid : Packets.IsValid p.unreliable_stream
  pub unreliable_small : length p.unreliable_stream.buffer.bytes < 2 ^ 16
  pub unreliable_byte : length (unreliable_fitting p buffer) < 2 ^ 8

-- A peer that knows the limits of the other side, and expects no later packet.
pub record IsWaiting (q : Peer) (limit : BandwidthLimit) (id : ℕ) : Type 0 where
  pub known : q.connection_manager.peer_bandwidth_limit ≡ some limit
  pub next : q.packet_delivery_manager.next_expected_packet_id ≤ id

module _ (p : Peer) (oldest : ℕ) (buffer : Span) (ready : IsReady p oldest buffer) where
  pub messages_sent-IsMessage : All IsMessage (messages_sent p buffer)
  messages_sent-IsMessage =
      fitting-IsMessage p.reliable_stream oldest ready.valid ready.small (drop 12 buffer)
        ready.oldest_lt

  -- A byte can count what fits.
  pub messages_sent-lt : length (messages_sent p buffer) < 2 ^ 8
  messages_sent-lt =
      let rest = drop 12 buffer in
      let stream = p.reliable_stream in
      let fit = fitting (length rest) 2 stream.pending_messages in
      elim (Bool-cases (length fit == 0)) [
        | inl nothing ↦
            omega (arith, length-texts stream.buffer fit, (==_iff (length fit) 0).0 nothing)
        | inr something ↦ omega (
          arith,
          length-texts stream.buffer fit,
          length-encodings stream.buffer fit
              (fitting_inside stream oldest ready.valid ready.small rest),
          fitting_within stream oldest ready.valid ready.small rest something,
          length-drop 12 buffer,
          ready.top,
        )
      ]

  pub payloads_sent-IsPayload : All IsPayload (payloads_sent p buffer)
  payloads_sent-IsPayload =
      fitting-IsPayload p.unreliable_stream (length (drop 12 buffer) - reliable_size p buffer)
        ready.unreliable_valid ready.unreliable_small

  pub payloads_sent-lt : length (payloads_sent p buffer) < 2 ^ 8
  payloads_sent-lt = omega (
    arith,
    length-payloads p.unreliable_stream.buffer (unreliable_fitting p buffer),
    ready.unreliable_byte,
  )

-- The packet: the header, the segment of the reliable messages and that of the unreliable ones.
abbrev pub packet_sent : Peer → Span → Span
packet_sent p buffer =
    let messages = messages_sent p buffer in
    PacketHeader.encoding p.packet_delivery_manager.next_outgoing_packet_id 0 0
    ++ (Segment.encoding Segment.reliable_stream (length messages)
        ++ (encodings messages ++ segment (payloads_sent p buffer)))

pub write_packet_sent :
    (p : Peer) (oldest now : ℕ) (buffer : Span)
    → IsReady p oldest buffer
    → let payloads = payloads_sent p buffer in
      (packet left : Span) × (u : UnreliableStream) × (write_packet now p buffer
        ≡ ok (packet ++ left, length packet, after_write p now buffer u))
      × (packet ≡ packet_sent p buffer)
      × (UnreliableStream.read (segment payloads)
          ≡ ok (value (length (segment payloads)), payloads))
      × (length packet + length left ≡ length buffer)
write_packet_sent p oldest now buffer ready =
    let id = p.packet_delivery_manager.next_outgoing_packet_id in
    let header = PacketHeader.encoding id 0 0 in
    let stream = p.reliable_stream in
    let rest = drop 12 buffer in
    let fit = fitting (length rest) 2 stream.pending_messages in
    let messages = messages_sent p buffer in
    elim (Bool-cases (length fit == 0)) [
      | inl nothing ↦
          let empty : (packed stream id rest).1 ≡ 0 = rw nothing refl in
          absurd (omega (arith, ready.some_fit, empty))
      | inr something ↦
          let inside = fitting_inside stream oldest ready.valid ready.small rest in
          let fits = fitting_within stream oldest ready.valid ready.small rest something in
          let count = length-texts stream.buffer fit in
          let text = body stream.buffer fit in
          let behind = drop (length text) rest in
          let bytes : (packed stream id rest).0 ≡ text ++ behind = rw something refl in
          let size : reliable_size p buffer ≡ length text = rw (reliable_size, something) refl in
          let short : length rest ≡ length buffer - 12 = length-drop 12 buffer in
          let text_size : length text ≡ 2 + length (encodings messages) = omega arith in
          let behind_size : length behind ≡ length rest - length text =
            length-drop (length text) rest in
          let same_room : length behind ≡ length rest - reliable_size p buffer =
            omega (arith, behind_size, size) in
          let (t, left, u, run, got, total, shape) =
            write_any p.unreliable_stream behind ready.unreliable_valid ready.unreliable_small
              (rw same_room ready.unreliable_byte) in
          let same : t ≡ segment (payloads_sent p buffer) =
            shape
            ∙ ap
                (λ (n : ℕ). segment (
                  payloads p.unreliable_stream.buffer
                    (Writing.fitting n 2 p.unreliable_stream.pending_messages)))
                same_room in
          (
            (header ++ text) ++ t,
            left,
            u,
            write_packet_lem p oldest now buffer text behind t left u ready.plain ready.id_lt
                  ready.valid ready.small ready.room ready.top bytes size run
                ∙ ap₂ (λ (b : Span) (n : ℕ). ok (b, n, after_write p now buffer u))
                    (sym (append_assoc (header ++ text) t left))
                    (omega (arith, length-append text t)),
            ap₂
                (λ (n : ℕ) (t : Span).
                  header
                  ++ (Segment.encoding Segment.reliable_stream n ++ (encodings messages ++ t)))
                (sym count) same,
            subst
                (λ (s : Span).
                  UnreliableStream.read s ≡ ok (value (length s), payloads_sent p buffer))
                same
                (got
                  ∙ ap
                      (λ (n : ℕ). ok (
                        value (length t),
                        payloads p.unreliable_stream.buffer
                            (Writing.fitting n 2 p.unreliable_stream.pending_messages),
                      ))
                      same_room),
            omega (
              arith,
              total,
              length-append text t,
              short,
              text_size,
              behind_size,
              fits,
              ready.room,
            ),
          )
    ]

-- What one peer writes the other reads. A peer without acks and handshakes to send, of whose reliable
-- messages at least one fits, writes a packet. A connected peer that reads it gives the callback those
-- of its reliable messages that come next in the sequence and all of its unreliable messages, each with
-- the bytes that were sent and in order, and expects the next packet. The packet is the header, the
-- segment of the reliable messages and, if there are any, the segment of the unreliable ones.
pub read_packet-write_packet :
    (config : ConnectionManagerConfig) (p q : Peer) (metrics : NeptunMetrics)
    (limit : BandwidthLimit) (oldest now : ℕ) (buffer : Span)
    → IsReady p oldest buffer
    → IsWaiting q limit p.packet_delivery_manager.next_outgoing_packet_id
    → let id = p.packet_delivery_manager.next_outgoing_packet_id in
      let messages = messages_sent p buffer in
      (packet left : Span) × (u : UnreliableStream) × (write_packet now p buffer
        ≡ ok (packet ++ left, length packet, after_write p now buffer u))
      × (read_packet config q metrics packet
          ≡ ok (
            after_read config q limit id messages,
            metrics,
            record {
              reliable = delivered q.reliable_stream.next_expected_sequence_number messages;
              unreliable = payloads_sent p buffer;
            },
          ))
      × (length packet + length left ≡ length buffer)
      × (packet
          ≡ PacketHeader.encoding id 0 0
            ++ (Segment.encoding Segment.reliable_stream (length messages)
                ++ (encodings messages ++ segment (payloads_sent p buffer))))
read_packet-write_packet config p q metrics limit oldest now buffer ready waiting =
    let id = p.packet_delivery_manager.next_outgoing_packet_id in
    let (packet, left, u, run, shape, got, total) = write_packet_sent p oldest now buffer ready in
    (
      packet,
      left,
      u,
      run,
      ap (read_packet config q metrics) shape
          ∙ read_packet_lem config q metrics id limit (messages_sent p buffer)
              (segment (payloads_sent p buffer)) (payloads_sent p buffer) ready.id_lt waiting.next
              waiting.known (messages_sent-lt p oldest buffer ready)
              (messages_sent-IsMessage p oldest buffer ready) got,
      total,
      shape,
    )
