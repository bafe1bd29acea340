-- ===== src/Neptun/Greeting.antt =====
-- Packets with a handshake: what one peer writes and what the other makes of it.
pub mod Tests
use neptun.Common.{
  ℕ, ◌+◌, ◌-◌, ◌*◌, ◌/◌, ◌%◌, ◌^◌, ◌≤◌, ◌<◌, ◌≡◌, refl, ap, ◌∙◌, List, [], ◌∷◌, ◌++◌, take, drop,
  length, false, true, ◌==◌, some, ok, fault, arith, length-append, length-drop, Outcome,
}
use neptun.Io.{Span}
use neptun.Io.Encode.{first-append, advance-append, advance-drop}
use neptun.Messages.PacketHeader
use neptun.Messages.Segment
use neptun.Metrics.{NeptunMetrics}
use neptun.Connection.{ConnectionManager, ConnectionManagerConfig, BandwidthLimit}
use neptun.Connection
use neptun.Connection.Handshake.{InFields, packet}
use neptun.Connection.Agreement.{written, write_handshake, read_cut}
use neptun.ReliableStream.{ReliableStream}
use neptun.ReliableStream
use neptun.UnreliableStream.{UnreliableStream}
use neptun.UnreliableStream
use neptun.Neptun.{Peer, process_delivery_statuses}
use neptun.Neptun.Reading.{read_packet, read_connection}
use neptun.Neptun.Writing.{write_packet}
use neptun.Neptun.Packets.{
  stage-append, dispatched, write_without_acks, accepted, process_read_without_acks,
}

-- The peer after a packet with a handshake.
abbrev pub after_greeting : Peer → ℕ → ReliableStream → Peer
after_greeting p now s = record p {
  packet_delivery_manager = dispatched p.packet_delivery_manager now;
  connection_manager =
      written p.connection_manager p.packet_delivery_manager.next_outgoing_packet_id;
  reliable_stream = s;
}

-- A peer with a handshake to send, which has not failed and whose limits fit their fields, but no acks
-- and no unreliable messages.
pub record IsGreeting (p : Peer) : Type 0 where
  pub no_acks : p.packet_delivery_manager.pending_acks ≡ []
  pub id_lt : p.packet_delivery_manager.next_outgoing_packet_id < 2 ^ 32
  pub due : 0 < p.connection_manager.num_lets_connect_to_send
  pub not_failed : p.connection_manager.is_fail ≡ false
  pub in_fields : InFields p.connection_manager.config.limit
  pub no_unreliable : p.unreliable_stream.pending_messages ≡ []

write_no_unreliable :
    (u : UnreliableStream) (buffer : Span)
    → u.pending_messages ≡ []
    → UnreliableStream.write u buffer ≡ ok (buffer, 0, u)
unfolding UnreliableStream.write UnreliableStream.count_loop
write_no_unreliable u buffer e = rw e refl

-- The stages of a packet: the header, nine bytes of the handshake, and what the reliable stream writes
-- from the tenth on.
pub write_greeting :
    (p : Peer) (now gap : ℕ) (l : BandwidthLimit) (buffer tail text behind : Span)
    (s : ReliableStream)
    → IsGreeting p
    → 12 ≤ length buffer
    → let id = p.packet_delivery_manager.next_outgoing_packet_id in
      let front = take 9 (packet l gap) in
      Connection.write p.connection_manager id (drop 12 buffer)
        ≡ ok (front ++ tail, 9, written p.connection_manager id)
      → ReliableStream.write p.reliable_stream id tail ≡ ok (text ++ behind, length text, s)
      → write_packet now p buffer
        ≡ ok (
          (PacketHeader.encoding id 0 0 ++ (front ++ text)) ++ behind,
          length (PacketHeader.encoding id 0 0 ++ (front ++ text)),
          after_greeting p now s,
        )
unfolding write_packet
write_greeting p now gap l buffer tail text behind s g h greeted wrote =
    let id = p.packet_delivery_manager.next_outgoing_packet_id in
    let header = PacketHeader.encoding id 0 0 in
    let front = take 9 (packet l gap) in
    let pre = header ++ front in
    let whole = pre ++ text in
    let size : 21 + length text ≡ length whole = omega arith in
    rw
      (
        write_without_acks p.packet_delivery_manager buffer now g.no_acks h,
        first-append 12 header (drop 12 buffer) refl,
        PacketHeader.id-encoding id 0 0 [] g.id_lt,
        stage-append 12 _ header (drop 12 buffer) (front ++ tail) 9
            (written p.connection_manager id) refl greeted,
        stage-append 21 _ pre tail (text ++ behind) (length text) s refl wrote,
      )
      (rw
        (
          stage-append (12 + 9 + length text) _ whole behind behind 0 p.unreliable_stream
              (omega (arith, size))
              (write_no_unreliable p.unreliable_stream behind g.no_unreliable),
          advance-append (12 + 9 + length text + 0) whole behind (omega (arith, size)),
        )
        (ap (λ (k : ℕ). ok (whole ++ behind, k, after_greeting p now s)) (omega (arith, size))))

-- The last byte of a handshake.
abbrev pub last_byte : BandwidthLimit → ℕ
last_byte l = l.max_read_packet_size / 1 % 256

pub connection_greeting :
    (p : Peer) (buffer : Span)
    → IsGreeting p
    → 22 ≤ length buffer
    → let l = p.connection_manager.config.limit in
      let id = p.packet_delivery_manager.next_outgoing_packet_id in
      (gap : ℕ) × (rest : Span) × (Connection.write p.connection_manager id (drop 12 buffer)
        ≡ ok (take 9 (packet l gap) ++ (last_byte l ∷ rest), 9, written p.connection_manager id))
      × (length rest + 22 ≡ length buffer)
connection_greeting p buffer g h =
    let id = p.packet_delivery_manager.next_outgoing_packet_id in
    let long : 10 ≤ length (drop 12 buffer) = omega (arith, length-drop 12 buffer, h) in
    let (gap, rest, run, size) =
      write_handshake p.connection_manager id (drop 12 buffer) g.not_failed g.due long in
    (gap, rest, run, omega (arith, size, length-drop 12 buffer, h))

write_no_reliable :
    (s : ReliableStream) (id : ℕ) (buffer : Span)
    → s.pending_messages ≡ []
    → ReliableStream.write s id buffer ≡ ok (buffer, 0, s)
unfolding ReliableStream.write ReliableStream.count_loop
write_no_reliable s id buffer e = rw e refl

-- A handshake that is alone in its packet cannot be read. A peer that has a handshake to send, not failed
-- and with limits that fit their fields, and no acks and no messages, as after its first `connect`, writes
-- a packet of 21 bytes into a span of 22 or more. The last byte of the handshake is not among them, and
-- any peer that has not seen a later packet accesses that byte behind the end of the packet when it
-- reads it, which is undefined, if the sender's limit for the size of what it sends is at least 100.
pub first_packet_cut :
    (config : ConnectionManagerConfig) (p q : Peer) (metrics : NeptunMetrics) (now : ℕ)
    (buffer : Span)
    → IsGreeting p
    → p.reliable_stream.pending_messages ≡ []
    → 100 ≤ p.connection_manager.config.limit.max_send_packet_size
    → 22 ≤ length buffer
    → q.packet_delivery_manager.next_expected_packet_id
      ≤ p.packet_delivery_manager.next_outgoing_packet_id
    → (sent left : Span) × (write_packet now p buffer
        ≡ ok (sent ++ left, length sent, after_greeting p now p.reliable_stream))
      × (length sent ≡ 21)
      × (read_packet config q metrics sent ≡ fault)
unfolding read_packet read_connection process_delivery_statuses
first_packet_cut config p q metrics now buffer g nothing large h next =
    let id = p.packet_delivery_manager.next_outgoing_packet_id in
    let l = p.connection_manager.config.limit in
    let (gap, rest, greeted, _) = connection_greeting p buffer g h in
    let front = take 9 (packet l gap) in
    let tail = last_byte l ∷ rest in
    (
      PacketHeader.encoding id 0 0 ++ front,
      tail,
      write_greeting p now gap l buffer tail [] tail p.reliable_stream g (omega (arith, h)) greeted
          (write_no_reliable p.reliable_stream id tail nothing),
      refl,
      rw
          (
            process_read_without_acks q.packet_delivery_manager id front g.id_lt next,
            advance-append 12 (PacketHeader.encoding id 0 0) front refl,
            read_cut q.connection_manager l gap g.in_fields large,
          )
          refl,
    )
