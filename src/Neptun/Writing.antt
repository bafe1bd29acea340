-- ===== src/Neptun/Writing.antt =====
-- neptun/neptun.h, `write` and `tick`: the packets that go to the peers, in the order of the addresses.
use neptun.Common.{
  ℕ, ◌+◌, ◌++◌, [], ◌∷◌, min, take, drop, length, not, ◌||◌, ◌==◌, if◌then◌else◌, Option, none,
  some, Outcome, ok, check, ◌>>=◌, ◌>>◌, replicate,
}
use neptun.Io.{Span, first, advance}
use neptun.IpAddress.{IpAddress}
use neptun.IpMap.{IpMap}
use neptun.Network.{Network}
use neptun.UdpSocket.{UdpSocket}
use neptun.UdpSocket
use neptun.Metrics.{NeptunMetrics, neptun_metric_keys}
use neptun.Metrics
use neptun.Ticker
use neptun.Messages.PacketHeader
use neptun.PacketDelivery.{PacketDeliveryManager, drop_old_packets}
use neptun.PacketDelivery
use neptun.Connection.{
  ConnectionManager, ConnectionManagerConfig, BandwidthLimit, is_fully_connected,
}
use neptun.Connection
use neptun.ReliableStream.{ReliableStream}
use neptun.ReliableStream
use neptun.UnreliableStream.{UnreliableStream}
use neptun.UnreliableStream
use neptun.Neptun.{
  Neptun, Peer, Callbacks, process_delivery_statuses, k_just_above_mtu, k_just_below_mtu,
}
use neptun.Neptun.Reading

-- The size of a packet for a peer whose limit may be known.
unfoldable pub packet_size : Option BandwidthLimit → ℕ → ℕ
packet_size none max_send_packet_size = max_send_packet_size
packet_size (some limit) max_send_packet_size = min limit.max_read_packet_size max_send_packet_size

-- One stage, which writes behind the bytes of the stages before it.
unfoldable pub stage :
    {A : Type 0} → ℕ → (Span → Outcome (Span × ℕ × A)) → Span → Outcome (Span × ℕ × A)
stage idx writer buffer = do
  rest ← advance buffer idx
  (rest', count, a) ← writer rest
  ok (take idx buffer ++ rest', count, a)

-- The stages of `write_to_peer` on a buffer: its bytes after them, how many belong to the packet, and the peer.
unfoldable pub write_packet : ℕ → Peer → Span → Outcome (Span × ℕ × Peer)
unfolding stage
write_packet now peer buffer = do
  (b₁, packet_header_count, delivery) ← PacketDelivery.write peer.packet_delivery_manager buffer now
  packet_header ← first b₁ packet_header_count
  id ← PacketHeader.id packet_header
  let idx₁ = packet_header_count
  (b₂, connection_manager_count, manager) ←
      stage idx₁ (λ b. Connection.write peer.connection_manager id b) b₁
  let idx₂ = idx₁ + connection_manager_count
  (b₃, reliable_stream_count, reliable) ←
      stage idx₂ (λ b. ReliableStream.write peer.reliable_stream id b) b₂
  let idx₃ = idx₂ + reliable_stream_count
  (b₄, unreliable_stream_count, unreliable) ←
      stage idx₃ (λ b. UnreliableStream.write peer.unreliable_stream b) b₃
  let idx₄ = idx₃ + unreliable_stream_count
  _ ← advance b₄ idx₄
  ok (
    b₄,
    idx₄,
    record peer {
      packet_delivery_manager = delivery;
      connection_manager = manager;
      reliable_stream = reliable;
      unreliable_stream = unreliable;
    },
  )

-- The loop of `tick` over the peers.
unfoldable pub drop_loop : ℕ → IpMap Peer → NeptunMetrics → Outcome (IpMap Peer × NeptunMetrics)
unfolding process_delivery_statuses
drop_loop now [] metrics = ok ([], metrics)
drop_loop now ((ip, peer) ∷ peers) metrics = do
  let (delivery_statuses, manager) = drop_old_packets peer.packet_delivery_manager now
  (peer', metrics') ←
      process_delivery_statuses delivery_statuses
        (record peer { packet_delivery_manager = manager }) metrics
  (peers', metrics'') ← drop_loop now peers metrics'
  ok ((ip, peer') ∷ peers', metrics'')

module _ {N : Type 0} (network : Network N) where
  unfoldable pub write_to_peer : ℕ → IpAddress → Peer → ℕ → Neptun → N → Outcome (Peer × Neptun × N)
  unfolding write_packet UdpSocket.send_to
  write_to_peer now ip peer max_send_packet_size n state = do
    let size = min k_just_below_mtu max_send_packet_size
    buffer ← first n.network_buffer size
    (buffer', count, peer') ← write_packet now peer buffer
    let bytes = buffer' ++ drop size n.network_buffer
    payload ← first bytes count
    (sent_count, state') ← UdpSocket.send_to network n.udp_socket ip payload state
    check (sent_count == length payload)
    ok (peer', record n { network_buffer = bytes }, state')

  -- The loop of `write` over the peers. The ticker ticks in any case.
  unfoldable pub write_loop : ℕ → IpMap Peer → Neptun → N → Outcome (IpMap Peer × Neptun × N)
  unfolding packet_size write_to_peer
  write_loop now [] n state = ok ([], n, state)
  write_loop now ((ip, peer) ∷ peers) n state = do
    let size =
        packet_size peer.connection_manager.peer_bandwidth_limit
          n.connection_manager_config.limit.max_send_packet_size
    (due, ticker) ← Ticker.tick peer.send_packet_ticker now
    let ticked : Peer = record peer { send_packet_ticker = ticker }
    let written = write_to_peer now ip ticked size n state
    (peer', n', state') ←
        if due || not (is_fully_connected peer.connection_manager)
        then written
        else ok (ticked, n, state)
    (peers', n'', state'') ← write_loop now peers n' state'
    ok ((ip, peer') ∷ peers', n'', state'')

  unfoldable pub write : ℕ → Neptun → N → Outcome (Neptun × N)
  unfolding write_loop
  write now n state = do
    (peers, n', state') ← write_loop now n.peers n state
    ok (record n' { peers = peers }, state')

  unfoldable pub tick : ℕ → Neptun → N → Outcome (Callbacks × Neptun × N)
  unfolding drop_loop Reading.read write
  tick now n state = do
    (peers, metrics) ← drop_loop now n.peers n.metrics
    (callbacks, n₁, state₁) ←
        Reading.read network now (record n { peers = peers; metrics = metrics }) state
    (n₂, state₂) ← write now n₁ state₁
    ok (callbacks, n₂, state₂)

  -- The constructor.
  unfoldable pub init : IpAddress → ConnectionManagerConfig → ℕ → N → Outcome (Neptun × N)
  unfolding UdpSocket.bind Metrics.init
  init ip config packet_timeout state = do
    (udp_socket, state') ← UdpSocket.bind network ip state
    let metrics = Metrics.init (
        b'N' ∷ b'e' ∷ b'p' ∷ b't' ∷ b'u' ∷ b'n' ∷ b' ' ∷ b'm' ∷ b'e' ∷ b't' ∷ b'r' ∷ b'i' ∷ b'c'
        ∷ b's' ∷ [])
    ok (
      record {
        peers = [];
        udp_socket = udp_socket;
        network_buffer = replicate k_just_above_mtu 0;
        packet_timeout = packet_timeout;
        connection_manager_config = config;
        metrics = metrics;
      },
      state',
    )
