-- ===== src/Neptun/OverNetwork.antt =====
-- A packet from one instance to another over the fake network.
use neptun.Common.{
  ℕ, ◌≤◌, ◌≡◌, refl, ap, ◌∙◌, [], ◌++◌, append_assoc, drop, length, min, take, ltb, ◌==◌,
  if◌then◌else◌, some, ok, arith, false, true, List, ◌∷◌, zero, suc, le→ltb_false, length-take,
  ==_iff,
}
use neptun.Io.{Span, first}
use neptun.Io.Encode.{first-append}
use neptun.IpAddress.{IpAddress}
use neptun.IpMap.{find}
use neptun.IpMap.Laws.{find-insert}
use neptun.Network.{FileDescriptor}
use neptun.UdpSocket
use neptun.Metrics.{NeptunMetrics}
use neptun.Connection.{BandwidthLimit}
use neptun.ReliableStream.Reading.{delivered}
use neptun.UnreliableStream.{UnreliableStream}
use neptun.FakeNetwork.{FakeNetwork, PendingPacket, UdpPackets, find_ip, network, read_from_socket}
use neptun.FakeNetwork.Steps.{
  queue, pending, copied, popped, read_step, sent, send_kept, find_or-insert,
}
use neptun.Neptun.{
  Neptun, Peer, Callbacks, find_or_create_peer, set_peer, k_just_above_mtu, k_just_below_mtu,
}
use neptun.Neptun.Reading.{read_packet, read_info, read_from, read}
use neptun.Neptun.Writing.{write_to_peer}
use neptun.Neptun.Delivery.{after_write, after_read}
use neptun.Neptun.Exchange.{
  IsReady, IsWaiting, messages_sent, payloads_sent, read_packet-write_packet,
}

take-all {ℓ} : {A : Type ℓ} (n : ℕ) (xs : List A) → length xs ≤ n → take n xs ≡ xs
take-all zero [] h = refl
take-all zero (x ∷ xs) h = absurd (omega arith)
take-all (suc n) [] h = refl
take-all (suc n) (x ∷ xs) h = ap (◌∷◌ x) (take-all n xs (omega (arith, h)))

first-take : (b : Span) (count : ℕ) → count ≤ length b → first b count ≡ ok (take count b)
unfolding first
first-take b count h = rw (first, le→ltb_false (length b) count h) refl

-- Two bound sockets of a network that keeps packets, with none waiting for the second and an MTU of
-- at least `size`.
pub record IsLinked (net : FakeNetwork) (fd fd' : FileDescriptor) (ip ip' : IpAddress) (size : ℕ)
    : Type 0 where
  pub sender : find_ip net fd ≡ some ip
  pub receiver : find_ip net fd' ≡ some ip'
  pub keeps : net.should_drop_packets ≡ false
  pub empty : queue net ip' ≡ []
  pub mtu_le : size ≤ net.mtu

-- A packet that fits is received as it was sent.
received :
    (net : FakeNetwork) (fd fd' : FileDescriptor) (ip ip' : IpAddress) (size : ℕ)
    (packet buffer : Span)
    → IsLinked net fd fd' ip ip' size
    → length packet ≤ size
    → length packet ≤ length buffer
    → (buffer' : Span) × (net' : FakeNetwork) × (read_from_socket
          (sent net ip ip' packet)
          fd'
          buffer
        ≡ ok (some (record { sender = ip; payload = packet }), buffer', net'))
unfolding find_ip
received net fd fd' ip ip' size packet buffer link fits enough =
    let waits : PendingPacket = pending net.mtu ip packet in
    let whole : (if ltb net.mtu (length packet) then take net.mtu packet else packet) ≡ packet =
      ap (λ (b : _). if b then take net.mtu packet else packet)
        (le→ltb_false net.mtu (length packet) (omega (arith, fits, link.mtu_le))) in
    let waiting : queue (sent net ip ip' packet) ip' ≡ waits ∷ [] =
      find_or-insert net.buffers ip' (queue net ip' ++ (waits ∷ [])) []
      ∙ ap (λ (q : UdpPackets). q ++ (waits ∷ [])) link.empty in
    let step = read_step (sent net ip ip' packet) fd' ip' waits [] buffer link.receiver waiting in
    (
      _,
      _,
      step
          ∙ ap
              (λ (payload : Span). ok (
                some (record { sender = ip; payload = payload }),
                copied buffer waits.payload,
                popped (sent net ip ip' packet) ip' waits [],
              ))
              (ap (take (length buffer)) whole ∙ take-all (length buffer) packet enough),
    )

-- A packet of a peer that is there.
read_info_known :
    (n : Neptun) (q q' : Peer) (ip : IpAddress) (packet : Span) (now : ℕ) (net : FakeNetwork)
    (metrics : NeptunMetrics) (callbacks : Callbacks)
    → find n.peers ip ≡ some q
    → read_packet n.connection_manager_config q n.metrics packet ≡ ok (q', metrics, callbacks)
    → read_info network now (some (record { sender = ip; payload = packet })) n net
      ≡ ok (callbacks, set_peer (record n { metrics = metrics }) ip q', net)
unfolding read_info read_from find_or_create_peer
read_info_known n q q' ip packet now net metrics callbacks there got =
    let found : find_or_create_peer 0 ip now n ≡ (q, n) = rw (find_or_create_peer, there) refl in
    ap (λ (r : Peer × Neptun). read_from network (record { sender = ip; payload = packet }) r net)
      found
    ∙ rw got refl

-- A packet with messages goes from one instance to another. The writing peer has no acks and no handshake
-- to send, a valid stream of which at least one reliable message fits, and no more unreliable messages
-- than a byte can count. The reading peer is there, knows the limits of the other side and has not seen a
-- later packet. The network links the two sockets, keeps packets, cuts none of this size and has no
-- others for the reader. Then `write_to_peer` and `read` return, the reader gives its callback those of the
-- reliable messages of the packet that come next in the sequence and all of its unreliable messages, with
-- the bytes that were sent, and both update the peer. Nothing is said of other packets.
pub read-write_to_peer :
    (a b : Neptun) (p q : Peer) (ip ip' : IpAddress) (net : FakeNetwork) (limit : BandwidthLimit)
    (oldest now now' size : ℕ)
    → length a.network_buffer ≡ k_just_above_mtu
    → length b.network_buffer ≡ k_just_above_mtu
    → IsReady p oldest (take (min k_just_below_mtu size) a.network_buffer)
    → IsWaiting q limit p.packet_delivery_manager.next_outgoing_packet_id
    → find b.peers ip ≡ some q
    → IsLinked net a.udp_socket.fd b.udp_socket.fd ip ip' (min k_just_below_mtu size)
    → let buffer = take (min k_just_below_mtu size) a.network_buffer in
      let messages = messages_sent p buffer in
      let q' =
        after_read b.connection_manager_config q limit
          p.packet_delivery_manager.next_outgoing_packet_id messages in
      (a' b' : Neptun) × (net' net'' : FakeNetwork) × (u : UnreliableStream) × (write_to_peer
          network now ip' p size a net
        ≡ ok (after_write p now buffer u, a', net'))
      × (read network now' b net'
          ≡ ok (
            record {
              reliable = delivered q.reliable_stream.next_expected_sequence_number messages;
              unreliable = payloads_sent p buffer;
            },
            b',
            net'',
          ))
      × (find b'.peers ip ≡ some q')
unfolding write_to_peer read UdpSocket.read UdpSocket.send_to
read-write_to_peer a b p q ip ip' net limit oldest now now' size la lb ready waiting there link =
    let limited = min k_just_below_mtu size in
    let buffer = take limited a.network_buffer in
    let behind = drop limited a.network_buffer in
    let (packet, left, u, wrote, got, total, _) =
      read_packet-write_packet b.connection_manager_config p q b.metrics limit oldest now buffer
        ready waiting in
    let short : length buffer ≡ min limited (length a.network_buffer) =
      length-take limited a.network_buffer in
    let into = take k_just_above_mtu b.network_buffer in
    let space : length into ≡ min k_just_above_mtu (length b.network_buffer) =
      length-take k_just_above_mtu b.network_buffer in
    let (into', net'', arrived) =
      received net a.udp_socket.fd b.udp_socket.fd ip ip' limited packet into link
        (omega (arith, total, short)) (omega (arith, total, short, space, lb)) in
    let bytes : first ((packet ++ left) ++ behind) (length packet) ≡ ok packet =
      ap (λ (t : Span). first t (length packet)) (append_assoc packet left behind)
      ∙ first-append (length packet) packet (left ++ behind) refl in
    let b₁ : Neptun = record b {
      network_buffer = into' ++ drop k_just_above_mtu b.network_buffer;
    } in
    let same : (length packet == length packet) ≡ true =
      (==_iff (length packet) (length packet)).1 refl in
    let q' =
      after_read b.connection_manager_config q limit
        p.packet_delivery_manager.next_outgoing_packet_id (messages_sent p buffer) in
    (
      record a { network_buffer = (packet ++ left) ++ behind },
      set_peer b₁ ip q',
      sent net ip ip' packet,
      net'',
      u,
      rw
          (
            first-take a.network_buffer limited (omega (arith, la)),
            wrote,
            bytes,
            send_kept net a.udp_socket.fd ip ip' packet link.sender link.keeps,
            same,
          )
          refl,
      rw (first-take b.network_buffer k_just_above_mtu (omega (arith, lb)), arrived)
          (read_info_known b₁ q q' ip packet now' net'' b.metrics _ there got),
      find-insert b.peers ip q',
    )
