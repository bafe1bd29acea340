-- ===== src/Connection/Handshake.antt =====
-- `write` and `read`: the limits that a peer learns.
use neptun.Common.{
  ℕ, ◌+◌, ◌^◌, ◌≤◌, ◌<◌, ◌≡◌, refl, [], ◌∷◌, ◌++◌, true, false, Bool, some, ltb, leb, ◌&&◌,
  if◌then◌else◌, Bool-cases, inl, inr, ok, arith, length, value,
}
use neptun.Io.{Span}
use neptun.Io.Encode.{advance-append}
use neptun.Messages.Segment
use neptun.Messages.MessageHeader
use neptun.Messages.LetsConnect
use neptun.Connection.{BandwidthLimit, ConnectionManager, read_lets_connect, dispatch, read}

-- The numbers fit their fields.
pub record InFields (l : BandwidthLimit) : Type 0 where
  pub read_rate : l.max_read_packet_rate < 2 ^ 8
  pub read_size : l.max_read_packet_size < 2 ^ 16
  pub send_rate : l.max_send_packet_rate < 2 ^ 8
  pub send_size : l.max_send_packet_size < 2 ^ 16

-- The ten bytes of a handshake; `gap` is the byte that is not written.
abbrev pub packet : BandwidthLimit → ℕ → Span
packet l gap =
    Segment.encoding 0 1
    ++ (0
        ∷ LetsConnect.encoding l.max_send_packet_rate l.max_read_packet_rate gap
            l.max_send_packet_size l.max_read_packet_size)

-- What the reader of valid limits becomes: the initiator has its response, the other peer will respond.
abbrev pub informed : ConnectionManager → BandwidthLimit → ConnectionManager
informed c l = record c {
  is_fail = false;
  num_lets_connect_to_send =
      if c.is_initiator then c.num_lets_connect_to_send else c.config.num_redundant_packets + 1;
  peer_bandwidth_limit = some l;
}

-- A request and a response differ in whether this peer has to respond.
choose :
    (c : ConnectionManager) (l : BandwidthLimit) (initiator : Bool)
    → (if initiator
        then ok (record c { is_fail = false; peer_bandwidth_limit = some l })
        else ok (record c {
          is_fail = false;
          num_lets_connect_to_send = c.config.num_redundant_packets + 1;
          peer_bandwidth_limit = some l;
        }))
      ≡ ok (record c {
        is_fail = false;
        num_lets_connect_to_send =
            if initiator then c.num_lets_connect_to_send else c.config.num_redundant_packets + 1;
        peer_bandwidth_limit = some l;
      })
choose c l true = refl
choose c l false = refl

module _ (l : BandwidthLimit) (v : InFields l) (gap : ℕ) (rest : Span) where
  abbrev message : Span
  message =
      LetsConnect.encoding l.max_send_packet_rate l.max_read_packet_rate gap l.max_send_packet_size
        l.max_read_packet_size
      ++ rest

  read_rate : LetsConnect.max_read_packet_rate message ≡ ok l.max_read_packet_rate
  read_rate =
      LetsConnect.max_read_packet_rate-encoding l.max_send_packet_rate l.max_read_packet_rate gap
        l.max_send_packet_size l.max_read_packet_size rest v.read_rate

  read_size : LetsConnect.max_read_packet_size message ≡ ok l.max_read_packet_size
  read_size =
      LetsConnect.max_read_packet_size-encoding l.max_send_packet_rate l.max_read_packet_rate gap
        l.max_send_packet_size l.max_read_packet_size rest v.read_size

  send_rate : LetsConnect.max_send_packet_rate message ≡ ok l.max_send_packet_rate
  send_rate =
      LetsConnect.max_send_packet_rate-encoding l.max_send_packet_rate l.max_read_packet_rate gap
        l.max_send_packet_size l.max_read_packet_size rest v.send_rate

  send_size : LetsConnect.max_send_packet_size message ≡ ok l.max_send_packet_size
  send_size =
      LetsConnect.max_send_packet_size-encoding l.max_send_packet_rate l.max_read_packet_rate gap
        l.max_send_packet_size l.max_read_packet_size rest v.send_size

  -- The case of valid limits, and that of limits that are too small.
  read_lets_connect_lem :
      (c : ConnectionManager)
      → read_lets_connect c message
        ≡ ok (
            if leb 100 l.max_send_packet_size && leb 100 l.max_read_packet_size
            then informed c l
            else record c { is_fail = true })
  unfolding read_lets_connect
  read_lets_connect_lem c =
      rw (send_size, read_size)
        (elim (Bool-cases (leb 100 l.max_send_packet_size)) [
          | inr small ↦ rw small refl
          | inl large ↦ elim (Bool-cases (leb 100 l.max_read_packet_size)) [
            | inr small ↦ rw (large, small) refl
            | inl both ↦ rw (large, both, read_rate, send_rate) (choose c l c.is_initiator)
          ]
        ])

  -- `read` of a handshake: nine bytes. Limits of 100 bytes or more in both directions become the
  -- peer's limits, and a peer that has not asked to connect will respond; others mark the handshake as
  -- failed.
  pub read_handshake :
      (c : ConnectionManager)
      → read c (packet l gap ++ rest)
        ≡ ok (
          value 9,
          if leb 100 l.max_send_packet_size && leb 100 l.max_read_packet_size
              then informed c l
              else record c { is_fail = true },
        )
  unfolding read dispatch
  read_handshake c =
      let behind : Span = 0 ∷ message in
      let long : ltb (length (packet l gap ++ rest)) 2 ≡ false = ground arith in
      rw
        (
          long,
          Segment.manager_type-encoding 0 1 behind (omega arith),
          Segment.message_count-encoding 0 1 behind (omega arith),
          advance-append 2 (Segment.encoding 0 1) behind refl,
          MessageHeader.message_type-big_endian 0 message (omega arith),
          advance-append 3 (Segment.encoding 0 1 ++ (0 ∷ [])) message refl,
          read_lets_connect_lem c,
        )
        refl

-- The seven bytes of a message behind the three of the segment and the header.
pub split :
    (b : Span)
    → 10 ≤ length b
    → (h t k x y gap : ℕ) × (rest : Span) × (b ≡ h ∷ t ∷ k ∷ x ∷ y ∷ gap ∷ rest) × (4 ≤ length rest)
split (h ∷ t ∷ k ∷ x ∷ y ∷ gap ∷ rest) e = (h, t, k, x, y, gap, rest, refl, omega arith)
split b e = absurd (omega arith)
