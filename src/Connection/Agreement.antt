-- ===== src/Connection/Agreement.antt =====
-- The bytes of a handshake that is written, and what is read of them if the last one is missing or
-- another.
use neptun.Common.{
  ℕ, ◌+◌, ◌-◌, ◌*◌, ◌/◌, ◌%◌, ◌^◌, ◌≤◌, ◌<◌, ◌≡◌, refl, ap, ap₂, ◌∙◌, [], ◌∷◌, ◌++◌, true, false,
  ltb, leb, ◌&&◌, ok, fault, arith, length, length-drop, drop, take, value, lt→ltb,
}
use neptun.Io.{Span}
use neptun.Io.Encode.{write_after-append, read_unsigned-big_endian, advance-append}
use neptun.Messages.Segment
use neptun.Messages.MessageHeader
use neptun.Messages.LetsConnect
use neptun.Connection.{
  BandwidthLimit, ConnectionManager, read, write_message, write, dispatch, read_lets_connect,
  validate,
}
use neptun.Connection.Handshake.{InFields, packet, informed, read_handshake, split}

-- After a packet with the message is written.
abbrev pub written : ConnectionManager → ℕ → ConnectionManager
written c packet_id = record c {
  in_flight_lets_connect = c.in_flight_lets_connect ++ (packet_id ∷ []);
  num_lets_connect_to_send = c.num_lets_connect_to_send - 1;
}

write_message_lem :
    (c : ConnectionManager) (k x y gap : ℕ) (b : Span)
    → c.is_fail ≡ false
    → 4 ≤ length b
    → write_message c (Segment.encoding 0 1 ++ (k ∷ x ∷ y ∷ gap ∷ b)) 2
      ≡ ok (packet c.config.limit gap ++ drop 4 b, 9)
unfolding write_message
write_message_lem c k x y gap b e h =
    let l = c.config.limit in
    let pre = Segment.encoding 0 1 in
    let body =
      LetsConnect.encoding l.max_send_packet_rate l.max_read_packet_rate gap l.max_send_packet_size
        l.max_read_packet_size in
    rw
      (
        write_after-append 2 (λ (t : Span). MessageHeader.write t 0) pre (k ∷ x ∷ y ∷ gap ∷ b)
            (0 ∷ x ∷ y ∷ gap ∷ b) (0 ∷ []) refl
            (MessageHeader.write_lem (k ∷ x ∷ y ∷ gap ∷ b) 0 (omega arith)),
        e,
        write_after-append 3
            (λ (t : Span).
              LetsConnect.write t l.max_send_packet_rate l.max_read_packet_rate
                l.max_send_packet_size l.max_read_packet_size)
            (pre ++ (0 ∷ [])) (x ∷ y ∷ gap ∷ b) (body ++ drop 4 b) (take 6 body) refl
            (LetsConnect.write_lem x y gap b l.max_send_packet_rate l.max_read_packet_rate
              l.max_send_packet_size l.max_read_packet_size h),
      )
      refl

-- `write` with a handshake to send, into ten bytes or more.
pub write_handshake :
    (c : ConnectionManager) (packet_id : ℕ) (buffer : Span)
    → c.is_fail ≡ false
    → 0 < c.num_lets_connect_to_send
    → 10 ≤ length buffer
    → (gap : ℕ) × (rest : Span) × (write c packet_id buffer
        ≡ ok (packet c.config.limit gap ++ rest, 9, written c packet_id))
      × (length rest + 10 ≡ length buffer)
unfolding write
write_handshake c packet_id buffer e n h =
    let (a, t, k, x, y, gap, rest, parts, r) = split buffer h in
    let due = lt→ltb 0 c.num_lets_connect_to_send n in
    let enough : ltb 9 (length (a ∷ t ∷ k ∷ x ∷ y ∷ gap ∷ rest)) ≡ true = ground (arith, r) in
    (
      gap,
      drop 4 rest,
      rw
          (
            parts,
            due,
            Segment.write_lem (a ∷ t ∷ k ∷ x ∷ y ∷ gap ∷ rest) 0 1 (omega arith),
            write_message_lem c k x y gap rest e r,
            enough,
          )
          refl,
      omega (arith, ap length parts, length-drop 4 rest, r),
    )

-- The nine bytes that `write` reports of a handshake end before its last byte, where `read` looks for it
-- if the first of the two sizes is valid.
pub read_cut :
    (c : ConnectionManager) (l : BandwidthLimit) (gap : ℕ)
    → InFields l
    → 100 ≤ l.max_send_packet_size
    → read c (take 9 (packet l gap)) ≡ fault
unfolding read dispatch read_lets_connect validate
read_cut c l gap v s =
    let message : Span = take 6 (
      LetsConnect.encoding l.max_send_packet_rate l.max_read_packet_rate gap l.max_send_packet_size
        l.max_read_packet_size) in
    let size : LetsConnect.max_send_packet_size message ≡ ok l.max_send_packet_size =
      unfold LetsConnect.max_send_packet_size in
      read_unsigned-big_endian 2 l.max_send_packet_size 3 (take 3 message) (drop 5 message) refl
        v.send_size in
    let large : leb 100 l.max_send_packet_size ≡ true = ground (arith, s) in
    rw
      (
        Segment.manager_type-encoding 0 1 (0 ∷ message) (omega arith),
        Segment.message_count-encoding 0 1 (0 ∷ message) (omega arith),
        advance-append 2 (Segment.encoding 0 1) (0 ∷ message) refl,
        MessageHeader.message_type-big_endian 0 message (omega arith),
        advance-append 3 (Segment.encoding 0 1 ++ (0 ∷ [])) message refl,
        size,
        large,
        LetsConnect.max_read_packet_size_cut message (omega arith),
      )
      refl

-- With another byte `t` for the last one of a handshake the reader takes a size that it was not sent.
pub read_overwritten :
    (c : ConnectionManager) (l : BandwidthLimit) (gap t : ℕ) (rest : Span)
    → InFields l
    → t < 2 ^ 8
    → 100 ≤ l.max_send_packet_size
    → 2 ^ 8 ≤ l.max_read_packet_size
    → read c (take 9 (packet l gap) ++ (t ∷ rest))
      ≡ ok (
        value 9,
        informed c (record l { max_read_packet_size = l.max_read_packet_size / 256 * 256 + t }),
      )
read_overwritten c l gap t rest v h s r =
    let size : ℕ = l.max_read_packet_size / 256 * 256 + t in
    let l' : BandwidthLimit = record l { max_read_packet_size = size } in
    let fields : InFields l' = record {
      read_rate = v.read_rate;
      read_size = omega (arith, v.read_size);
      send_rate = v.send_rate;
      send_size = v.send_size;
    } in
    let high : l.max_read_packet_size / 256 % 256 ≡ size / 256 % 256 = omega arith in
    let low : t ≡ size / 1 % 256 = omega arith in
    let valid : (leb 100 l'.max_send_packet_size && leb 100 l'.max_read_packet_size) ≡ true =
      ground (arith, s, r) in
    ap₂ (λ (a b : ℕ). read c (take 8 (packet l gap) ++ (a ∷ b ∷ rest))) high low
    ∙ read_handshake l' fields gap rest c
    ∙ rw valid refl
