-- ===== src/Neptun.antt =====
-- neptun/neptun.h: the peers of one address and what it sends to and reads from them.
-- Times are nanoseconds. The network's state and the callbacks' calls are passed on explicitly.
pub mod Reading
pub mod Writing
pub mod Packets
pub mod Delivery
pub mod Exchange
pub mod Greeting
pub mod Misread
pub mod OverNetwork
pub mod Stale
pub mod Rate
pub mod Statuses
pub mod Peers
pub mod Printing
pub mod Tests
use neptun.Common.{
  ℕ, zero, suc, ◌+◌, ◌-◌, ◌*◌, ◌/◌, ◌%◌, ◌^◌, min, List, [], ◌∷◌, ◌++◌, take, length, replicate,
  Bool, true, false, not, ◌&&◌, ◌||◌, ltb, leb, ◌==◌, if◌then◌else◌, Option, none, some, Outcome,
  ok, fault, check, Expected, value, unexpected, ◌>>=◌, ◌>>◌,
}
use neptun.Common.Int.{pos}
use neptun.Errors.{NeptunError}
use neptun.Io.{Span, first}
use neptun.Io
use neptun.IpAddress.{IpAddress}
use neptun.IpMap.{IpMap, find, insert}
use neptun.Network.{Network, ReadPacketInfo}
use neptun.UdpSocket.{UdpSocket}
use neptun.UdpSocket
use neptun.Metrics.{
  NeptunMetrics, NeptunMetricKey, packet_acks, packet_drops, inc, neptun_metric_keys,
}
use neptun.Metrics
use neptun.Ticker.{Ticker, set_tick_interval, clear_tick_interval}
use neptun.Ticker
use neptun.Messages.PacketHeader
use neptun.PacketDelivery.{
  PacketDeliveryManager, PacketDeliveryStatus, DeliveryStatuses, ack, drop, process_read,
  drop_old_packets,
}
use neptun.PacketDelivery
use neptun.Connection.{
  ConnectionManager, ConnectionManagerConfig, BandwidthLimit, is_peer_connected, is_fully_connected,
  on_packet_status_delivery,
}
use neptun.Connection
use neptun.ReliableStream.{ReliableStream, on_packet_delivery_status}
use neptun.ReliableStream
use neptun.UnreliableStream.{UnreliableStream}
use neptun.UnreliableStream

abbrev pub k_just_above_mtu : ℕ
k_just_above_mtu = 1600

abbrev pub k_just_below_mtu : ℕ
k_just_below_mtu = 1400

pub record Peer : Type 0 where
  pub send_packet_ticker : Ticker
  pub packet_delivery_manager : PacketDeliveryManager
  pub connection_manager : ConnectionManager
  pub reliable_stream : ReliableStream
  pub unreliable_stream : UnreliableStream

unfoldable pub update_send_rate : Peer → ℕ → Peer
update_send_rate p rate =
    if rate == 0
    then record p { send_packet_ticker = clear_tick_interval p.send_packet_ticker }
    else record p {
      send_packet_ticker = set_tick_interval p.send_packet_ticker (pos (1000000000 / rate));
    }

pub record Neptun : Type 0 where
  pub peers : IpMap Peer
  pub udp_socket : UdpSocket
  pub network_buffer : Span
  pub packet_timeout : ℕ
  pub connection_manager_config : ConnectionManagerConfig
  pub metrics : NeptunMetrics

-- The payloads that the callbacks were given, in order.
pub record Callbacks : Type 0 where
  pub reliable : List Span
  pub unreliable : List Span

abbrev pub no_callbacks : Callbacks
no_callbacks = record { reliable = []; unreliable = [] }

-- The streams' buffers have their default capacity.
abbrev pub k_default_buffer_capacity : ℕ
k_default_buffer_capacity = 3200

abbrev pub new_peer : Neptun → ℕ → ℕ → Peer
new_peer n next_expected_packet_id now = record {
  send_packet_ticker = Ticker.init now none;
  packet_delivery_manager = PacketDelivery.init next_expected_packet_id n.packet_timeout;
  connection_manager = Connection.init n.connection_manager_config;
  reliable_stream = ReliableStream.init k_default_buffer_capacity;
  unreliable_stream = UnreliableStream.init k_default_buffer_capacity;
}

-- The peer, and the state with its entry.
unfoldable pub find_or_create_peer : ℕ → IpAddress → ℕ → Neptun → Peer × Neptun
find_or_create_peer next_expected_packet_id peer_ip now n = elim (find n.peers peer_ip) [
  | some peer ↦ (peer, n)
  | none ↦
      let peer = new_peer n next_expected_packet_id now in
      (peer, record n { peers = insert n.peers peer_ip peer })
]

-- A peer of the map is a reference: a change of it is a change of its entry.
abbrev pub set_peer : Neptun → IpAddress → Peer → Neptun
set_peer n ip peer = record n { peers = insert n.peers ip peer }

unfoldable pub connect : IpAddress → ℕ → Neptun → Neptun
unfolding find_or_create_peer
connect ip now n =
    let (peer, n') = find_or_create_peer 0 ip now n in
    set_peer n' ip (record peer { connection_manager = Connection.connect peer.connection_manager })

unfoldable pub is_connected : Neptun → IpAddress → Bool
is_connected n ip = elim (find n.peers ip) [
  | none ↦ false
  | some peer ↦ is_peer_connected peer.connection_manager
]

unfoldable pub send_reliable_to : IpAddress → (Span → Span) → ℕ → Neptun → Outcome Neptun
unfolding is_connected find_or_create_peer
send_reliable_to ip write_to_buffer now n = do
  check (is_connected n ip)
  let (peer, n') = find_or_create_peer 0 ip now n
  stream ← ReliableStream.send peer.reliable_stream write_to_buffer
  ok (set_peer n' ip (record peer { reliable_stream = stream }))

unfoldable pub send_unreliable_to : IpAddress → (Span → Span) → ℕ → Neptun → Outcome Neptun
unfolding is_connected find_or_create_peer
send_unreliable_to ip write_to_buffer now n = do
  check (is_connected n ip)
  let (peer, n') = find_or_create_peer 0 ip now n
  stream ← UnreliableStream.send peer.unreliable_stream write_to_buffer
  ok (set_peer n' ip (record peer { unreliable_stream = stream }))

abbrev pub key_of : PacketDeliveryStatus → NeptunMetricKey
key_of ack = packet_acks
key_of drop = packet_drops

-- What `process_delivery_statuses` does with one status.
unfoldable pub process_status :
    ℕ → PacketDeliveryStatus → Peer → NeptunMetrics → Outcome (Peer × NeptunMetrics)
process_status packet_id status peer metrics = do
  manager ← on_packet_status_delivery peer.connection_manager packet_id status
  stream ← on_packet_delivery_status peer.reliable_stream packet_id status
  metrics' ← inc metrics (key_of status)
  ok (record peer { connection_manager = manager; reliable_stream = stream }, metrics')

unfoldable pub process_delivery_statuses :
    DeliveryStatuses → Peer → NeptunMetrics → Outcome (Peer × NeptunMetrics)
unfolding process_status
process_delivery_statuses [] peer metrics = ok (peer, metrics)
process_delivery_statuses ((packet_id, status) ∷ statuses) peer metrics = do
  (peer', metrics') ← process_status packet_id status peer metrics
  process_delivery_statuses statuses peer' metrics'
