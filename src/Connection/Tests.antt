-- ===== src/Connection/Tests.antt =====
-- The theorems of ConnectionManager at concrete managers.
use neptun.Common.{◌≡◌, [], ◌∷◌, none, true, false, fault}
use neptun.PacketDelivery.{ack}
use neptun.Connection.{
  BandwidthLimit, ConnectionManagerConfig, ConnectionManager, on_packet_status_delivery,
}
use neptun.Connection.Statuses.{ack_status}

abbrev limit : BandwidthLimit
limit = record {
  max_read_packet_rate = 30;
  max_read_packet_size = 1400;
  max_send_packet_rate = 60;
  max_send_packet_size = 1300;
}

abbrev config : ConnectionManagerConfig
config = record { num_redundant_packets = 2; limit = limit }

-- A manager with two packets on their way.
abbrev waiting : ConnectionManager
waiting = record {
  config = config;
  in_flight_lets_connect = 4 ∷ 5 ∷ [];
  num_lets_connect_to_send = 1;
  is_fail = false;
  is_initiator = true;
  self_is_connected = false;
  peer_bandwidth_limit = none;
}

ack_status_example : on_packet_status_delivery waiting 4 ack ≡ fault
ack_status_example = ack_status waiting 4
