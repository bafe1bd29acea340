-- ===== src/Neptun/Reading.antt =====
-- neptun/neptun.h, `read`: the stages that a packet passes. A packet that is malformed is dropped from
-- there on, with a line on the standard error that is not modelled.
use neptun.Common.{
  ℕ, ◌++◌, List, [], min, drop, not, ◌==◌, if◌then◌else◌, Option, none, some, Outcome, ok, fault,
  value, unexpected, ◌>>=◌,
}
use neptun.Io.{Span, first, advance}
use neptun.Network.{Network, ReadPacketInfo}
use neptun.UdpSocket.{UdpSocket}
use neptun.UdpSocket
use neptun.Metrics.{NeptunMetrics}
use neptun.PacketDelivery.{process_read}
use neptun.Connection.{ConnectionManagerConfig, BandwidthLimit, is_peer_connected}
use neptun.Connection
use neptun.ReliableStream
use neptun.UnreliableStream
use neptun.Neptun.{
  Neptun, Peer, Callbacks, no_callbacks, update_send_rate, find_or_create_peer, set_peer,
  process_delivery_statuses, k_just_above_mtu,
}

-- The rate on both sides' limits, of which 0 is none.
unfoldable pub send_rate : ℕ → ℕ → ℕ
send_rate peer_max_read_packet_rate self_max_send_packet_rate =
    if peer_max_read_packet_rate == 0
    then self_max_send_packet_rate
    else if self_max_send_packet_rate == 0
    then peer_max_read_packet_rate
    else min peer_max_read_packet_rate self_max_send_packet_rate

-- The peer's limit is read where there is one.
unfoldable pub set_send_rate : ConnectionManagerConfig → Peer → Outcome Peer
unfolding send_rate update_send_rate
set_send_rate config peer = elim peer.connection_manager.peer_bandwidth_limit [
  | none ↦ fault
  | some limit ↦ ok (
      update_send_rate peer
        (send_rate limit.max_read_packet_rate config.limit.max_send_packet_rate))
]

-- The stage of the unreliable stream, on the payloads of the stage before.
unfoldable pub read_unreliable : Peer → Span → List Span → Outcome (Peer × Callbacks)
read_unreliable peer buffer reliable = do
  (result, unreliable) ← UnreliableStream.read buffer
  let callbacks : Callbacks = record { reliable = reliable; unreliable = unreliable }
  elim result [
    | unexpected _ ↦ ok (peer, callbacks)
    | value count ↦ do _ ← advance buffer count; ok (peer, callbacks)
  ]

-- The stage of the reliable stream and the next.
unfoldable pub read_reliable : Peer → Span → Outcome (Peer × Callbacks)
unfolding read_unreliable
read_reliable peer buffer = do
  (result, reliable, stream) ← ReliableStream.read peer.reliable_stream buffer
  let peer' : Peer = record peer { reliable_stream = stream }
  elim result [
    | unexpected _ ↦ ok (peer', record { reliable = reliable; unreliable = [] })
    | value count ↦ do rest ← advance buffer count; read_unreliable peer' rest reliable
  ]

-- The stage of the connection manager and the next.
unfoldable pub read_connection : ConnectionManagerConfig → Peer → Span → Outcome (Peer × Callbacks)
unfolding set_send_rate read_reliable
read_connection config peer buffer = do
  (result, manager) ← Connection.read peer.connection_manager buffer
  let peer' : Peer = record peer { connection_manager = manager }
  elim result [
    | unexpected _ ↦ ok (peer', no_callbacks)
    | value count ↦ do
      rest ← advance buffer count
      if not (is_peer_connected manager)
          then ok (peer', no_callbacks)
          else do peer'' ← set_send_rate config peer'; read_reliable peer'' rest
  ]

-- All stages. A packet that the delivery manager rejects ends before its statuses are processed.
unfoldable pub read_packet :
    ConnectionManagerConfig
    → Peer
    → NeptunMetrics
    → Span
    → Outcome (Peer × NeptunMetrics × Callbacks)
unfolding process_delivery_statuses read_connection
read_packet config peer metrics buffer = do
  (read_count, delivery_statuses, packet_id, manager) ←
      process_read peer.packet_delivery_manager buffer
  let peer' : Peer = record peer { packet_delivery_manager = manager }
  if read_count == 0 then ok (peer', metrics, no_callbacks) else do
    rest ← advance buffer read_count
    (peer'', metrics') ← process_delivery_statuses delivery_statuses peer' metrics
    (peer''', callbacks) ← read_connection config peer'' rest
    ok (peer''', metrics', callbacks)

module _ {N : Type 0} (network : Network N) where
  -- What `read` does with a packet once its peer is there.
  unfoldable pub read_from : ReadPacketInfo → Peer × Neptun → N → Outcome (Callbacks × Neptun × N)
  unfolding read_packet
  read_from packet_info (peer, n) state = do
    (peer', metrics, callbacks) ←
        read_packet n.connection_manager_config peer n.metrics packet_info.payload
    ok (callbacks, set_peer (record n { metrics = metrics }) packet_info.sender peer', state)

  unfoldable pub read_info :
      ℕ → Option ReadPacketInfo → Neptun → N → Outcome (Callbacks × Neptun × N)
  unfolding find_or_create_peer read_from
  read_info now none n state = ok (no_callbacks, n, state)
  read_info now (some packet_info) n state =
      read_from packet_info (find_or_create_peer 0 packet_info.sender now n) state

  unfoldable pub read : ℕ → Neptun → N → Outcome (Callbacks × Neptun × N)
  unfolding UdpSocket.read read_info
  read now n state = do
    buffer ← first n.network_buffer k_just_above_mtu
    (packet_info, buffer', state') ← UdpSocket.read network n.udp_socket buffer state
    let n' : Neptun = record n {
      network_buffer = buffer' ++ drop k_just_above_mtu n.network_buffer;
    }
    read_info now packet_info n' state'
