-- ===== src/Neptun/Tests.antt =====
-- The theorems of Neptun at concrete peers.
use neptun.Common.{
  ℕ, ◌+◌, ◌/◌, ◌≡◌, ◌≤◌, ◌<◌, ◌⊎◌, refl, [], ◌∷◌, ◌++◌, length, replicate, take, min, none, some,
  true, false, ok, fault, arith,
}
use neptun.Common.Int.{pos}
use neptun.Io.{Span}
use neptun.IpAddress.{IpAddress, less, equal}
use neptun.IpMap.{IpMap, find, find_or}
use neptun.Metrics.{NeptunMetrics, inc}
use neptun.Messages.PacketHeader
use neptun.Messages.Segment
use neptun.PacketDelivery.{ack, drop, process_acks, most_significant_bit, status_of, acks_loop}
use neptun.Connection.{BandwidthLimit, ConnectionManagerConfig, on_packet_status_delivery}
use neptun.ReliableStream.{PendingMessage, on_packet_delivery_status}
use neptun.ReliableStream.Reading.{delivered, encodings}
use neptun.UnreliableStream.Segments.{segment}
use neptun.UnreliableStream.{UnreliableStream}
use neptun.FakeNetwork.{FakeNetwork, find_ip, network}
use neptun.Neptun.{Neptun, Peer, no_callbacks, process_delivery_statuses}
use neptun.Neptun.Reading.{read, read_packet, set_send_rate}
use neptun.Neptun.Writing.{write_packet, write_to_peer}
use neptun.Neptun.Delivery.{after_write, after_read}
use neptun.Neptun.Exchange.{
  IsReady, IsWaiting, messages_sent, payloads_sent, read_packet-write_packet,
}
use neptun.Neptun.OverNetwork.{IsLinked, read-write_to_peer}
use neptun.Neptun.Stale.{forgotten, read_packet_late}
use neptun.Neptun.Rate.{set_send_rate-interval}

abbrev pub limit : BandwidthLimit
limit = record {
  max_read_packet_rate = 30;
  max_read_packet_size = 1400;
  max_send_packet_rate = 60;
  max_send_packet_size = 100;
}

abbrev pub config : ConnectionManagerConfig
config = record { num_redundant_packets = 2; limit = limit }

abbrev pub message : PendingMessage
message = record { range = record { begin = 0; end = 2 }; sequence_number = 0 }

-- A connected peer with one message of two bytes to send.
abbrev pub peer : Peer
peer = record {
  send_packet_ticker = record {
    last_known_now = some 5;
    tick_interval = none;
    time_since_last_tick = pos 0;
  };
  packet_delivery_manager = record {
    packet_timeout = 1000;
    next_outgoing_packet_id = 4;
    next_expected_packet_id = 3;
    pending_acks = [];
    in_flight_packets = [];
  };
  connection_manager = record {
    config = config;
    in_flight_lets_connect = [];
    num_lets_connect_to_send = 0;
    is_fail = false;
    is_initiator = true;
    self_is_connected = true;
    peer_bandwidth_limit = some limit;
  };
  reliable_stream = record {
    buffer = record { begin_index = 0; end_index = 2; bytes = 5 ∷ 6 ∷ 0 ∷ 0 ∷ [] };
    in_flight_messages = [];
    pending_messages = message ∷ [];
    next_outgoing_sequence_number = 1;
    next_expected_sequence_number = 0;
  };
  unreliable_stream = record {
    buffer = record { begin_index = 0; end_index = 1; bytes = 9 ∷ 0 ∷ [] };
    pending_messages = record { begin = 0; end = 1 } ∷ [];
  };
}

abbrev pub metrics : NeptunMetrics
metrics = record { values = 0 ∷ 0 ∷ []; name = [] }

abbrev pub buffer : Span
buffer = take (min 1400 100) (replicate 1600 0)

pub peer-IsReady : IsReady peer 0 buffer
peer-IsReady = record {
  plain = record { no_acks = refl; settled = refl };
  id_lt = omega arith;
  valid = record { chain = (refl, omega arith, refl, (refl, refl)); end_le = omega arith };
  oldest_lt = omega arith;
  small = omega arith;
  room = omega arith;
  top = omega arith;
  some_fit = omega arith;
  unreliable_valid = record {
    ranges = (omega arith, omega arith, omega arith);
    end_le = omega arith;
  };
  unreliable_small = omega arith;
  unreliable_byte = omega arith;
}

peer-IsWaiting : IsWaiting peer limit 4
peer-IsWaiting = record { known = refl; next = omega arith }

read_packet-write_packet_example :
    (packet left : Span) × (u : UnreliableStream) × (write_packet 9 peer buffer
      ≡ ok (packet ++ left, length packet, after_write peer 9 buffer u))
    × (read_packet config peer metrics packet
        ≡ ok (
          after_read config peer limit 4 (messages_sent peer buffer),
          metrics,
          record {
            reliable = delivered 0 (messages_sent peer buffer);
            unreliable = payloads_sent peer buffer;
          },
        ))
    × (length packet + length left ≡ length buffer)
    × (packet
        ≡ PacketHeader.encoding 4 0 0
          ++ (Segment.encoding Segment.reliable_stream (length (messages_sent peer buffer))
              ++ (encodings (messages_sent peer buffer) ++ segment (payloads_sent peer buffer))))
read_packet-write_packet_example =
    read_packet-write_packet config peer peer metrics limit 0 9 buffer peer-IsReady peer-IsWaiting

abbrev pub address : ℕ → IpAddress
address port = record { ip_as_host_long = 2130706433; port = port }

abbrev pub wire : FakeNetwork
wire = record {
  packet_formatter = none;
  should_log_packets = false;
  mtu = 1400;
  next_fd = 2;
  should_drop_packets = false;
  bound = (address 7, record { value = 0 }) ∷ (address 8, record { value = 1 }) ∷ [];
  buffers = [];
  stats_by_ip = [];
  output = [];
}

abbrev instance_at : ℕ → ℕ → IpMap Peer → Neptun
instance_at port fd peers = record {
  peers = peers;
  udp_socket = record { fd = record { value = fd }; ip = address port };
  network_buffer = replicate 1600 0;
  packet_timeout = 1000;
  connection_manager_config = config;
  metrics = metrics;
}

abbrev client : Neptun
client = instance_at 7 0 ((address 8, peer) ∷ [])

abbrev pub server : Neptun
server = instance_at 8 1 ((address 7, peer) ∷ [])

pub there : find server.peers (address 7) ≡ some peer
unfolding find less equal
there = refl

wire-IsLinked :
    IsLinked wire (record { value = 0 }) (record { value = 1 }) (address 7) (address 8) 100
unfolding find_ip find_or find
wire-IsLinked = record {
  sender = refl;
  receiver = refl;
  keeps = refl;
  empty = refl;
  mtu_le = omega arith;
}

read-write_to_peer_example :
    (a' b' : Neptun) × (net' net'' : FakeNetwork) × (u : UnreliableStream) × (write_to_peer network
        9
        (address 8)
        peer
        100
        client
        wire
      ≡ ok (after_write peer 9 buffer u, a', net'))
    × (read network 12 server net'
        ≡ ok (
          record {
            reliable = delivered 0 (messages_sent peer buffer);
            unreliable = payloads_sent peer buffer;
          },
          b',
          net'',
        ))
    × (find b'.peers (address 7)
        ≡ some (after_read config peer limit 4 (messages_sent peer buffer)))
read-write_to_peer_example =
    read-write_to_peer client server peer peer (address 7) (address 8) wire limit 0 9 12 100 refl
      refl peer-IsReady peer-IsWaiting there wire-IsLinked

-- The two bytes of the reliable message arrive, and the byte of the unreliable one.
arrived :
    (delivered 0 (messages_sent peer buffer) ≡ (5 ∷ 6 ∷ []) ∷ [])
    × (payloads_sent peer buffer ≡ (9 ∷ []) ∷ [])
arrived = (refl, refl)

-- A peer whose message is in flight in the packet 1, as is the packet.
abbrev flying : Peer
flying = record peer {
  packet_delivery_manager = record (peer.packet_delivery_manager) {
    in_flight_packets = record { id = 1; time_dispatched = 0 } ∷ [];
  };
  reliable_stream = record (peer.reliable_stream) {
    in_flight_messages = record { packet_id = 1; message = message } ∷ [];
    pending_messages = [];
  };
}

settled : process_acks 1 1 flying.packet_delivery_manager.in_flight_packets ≡ ok ((1, ack) ∷ [], [])
unfolding process_acks most_significant_bit acks_loop status_of
settled = refl

read_packet_late_example :
    (read_packet config flying metrics (PacketHeader.encoding 2 1 1 ++ [])
      ≡ ok (forgotten flying [], metrics, no_callbacks))
    × (process_delivery_statuses ((2, drop) ∷ []) (forgotten flying []) metrics ≡ fault)
read_packet_late_example =
    read_packet_late config flying metrics 2 1 1 2 [] ((1, ack) ∷ []) [] drop
      (record { packet_id = 1; message = message }) [] (omega arith) (omega arith) (omega arith)
      (omega arith) settled refl (omega arith)

set_send_rate-interval_example :
    (q : Peer) × (set_send_rate config peer ≡ ok q)
    × (((limit.max_read_packet_rate ≡ 0)
          × (config.limit.max_send_packet_rate ≡ 0)
          × (q.send_packet_ticker.tick_interval ≡ none))
        ⊎ ((rate : ℕ) × (q.send_packet_ticker.tick_interval ≡ some (pos (1000000000 / rate)))
            × (0 < rate)
            × (0 < 1000000000 / rate)
            × ((limit.max_read_packet_rate ≡ 0) ⊎ (rate ≤ 30))
            × ((config.limit.max_send_packet_rate ≡ 0) ⊎ (rate ≤ 60))))
set_send_rate-interval_example =
    set_send_rate-interval config peer limit refl (omega arith) (omega arith)

-- The message of the packet 1 is acked, and a packet 2 without messages dropped.
abbrev acked : Peer
acked = record flying {
  reliable_stream = record (flying.reliable_stream) {
    buffer = record { begin_index = 2; end_index = 2; bytes = 5 ∷ 6 ∷ 0 ∷ 0 ∷ [] };
    in_flight_messages = [];
  };
}

processed :
    process_delivery_statuses ((1, ack) ∷ (2, drop) ∷ []) flying metrics
    ≡ ok (acked, record metrics { values = 1 ∷ 1 ∷ [] })
unfolding process_delivery_statuses on_packet_status_delivery on_packet_delivery_status inc
processed = refl
