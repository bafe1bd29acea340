-- ===== src/Connection.antt =====
-- neptun/connection_manager.h: the handshake, in which each peer learns the other's limits.
pub mod Statuses
pub mod Handshake
pub mod Agreement
pub mod Tests
use neptun.Common.{
  ℕ, ◌+◌, ◌-◌, Option, none, some, List, [], ◌∷◌, ◌++◌, Bool, true, false, ltb, leb, ◌==◌, ◌&&◌,
  not, if◌then◌else◌, length, Outcome, ok, fault, check, Expected, value, unexpected, ◌>>=◌, ◌>>◌,
}
use neptun.Errors.{NeptunError, malformed_packet, lets_connect_rejected}
use neptun.Io.{Span, write_after}
use neptun.Io
use neptun.Messages.Segment
use neptun.Messages.MessageHeader
use neptun.Messages.LetsConnect
use neptun.Messages.RejectLetsConnect
use neptun.PacketDelivery.{PacketDeliveryStatus, ack, drop}

pub record BandwidthLimit : Type 0 where
  pub max_read_packet_rate : ℕ
  pub max_read_packet_size : ℕ
  pub max_send_packet_rate : ℕ
  pub max_send_packet_size : ℕ

pub record ConnectionManagerConfig : Type 0 where
  pub num_redundant_packets : ℕ
  pub limit : BandwidthLimit

-- The queue is a list, the front first.
pub record ConnectionManager : Type 0 where
  pub config : ConnectionManagerConfig
  pub in_flight_lets_connect : List ℕ
  pub num_lets_connect_to_send : ℕ
  pub is_fail : Bool
  pub is_initiator : Bool
  pub self_is_connected : Bool
  pub peer_bandwidth_limit : Option BandwidthLimit

unfoldable pub init : ConnectionManagerConfig → ConnectionManager
init config = record {
  config = config;
  in_flight_lets_connect = [];
  num_lets_connect_to_send = 0;
  is_fail = false;
  is_initiator = false;
  self_is_connected = false;
  peer_bandwidth_limit = none;
}

unfoldable pub connect : ConnectionManager → ConnectionManager
connect c = record c {
  num_lets_connect_to_send = c.config.num_redundant_packets + 1;
  is_initiator = true;
}

abbrev has_value : Option BandwidthLimit → Bool
has_value none = false
has_value (some limit) = true

abbrev pub is_peer_connected : ConnectionManager → Bool
is_peer_connected c = has_value c.peer_bandwidth_limit

abbrev pub is_fully_connected : ConnectionManager → Bool
is_fully_connected c = is_peer_connected c && c.self_is_connected

-- `!m_in_flight_lets_connect.empty() && m_in_flight_lets_connect.front() == packet_id`.
abbrev pub front_matches : ℕ → List ℕ → Bool
front_matches packet_id [] = false
front_matches packet_id (id ∷ ids) = id == packet_id

-- Popping an empty queue is undefined.
unfoldable pub pop : List ℕ → Outcome (List ℕ)
pop [] = fault
pop (id ∷ ids) = ok ids

unfoldable pub clear_loop : List ℕ → List ℕ
clear_loop [] = []
clear_loop (id ∷ ids) = clear_loop ids

unfoldable pub on_packet_status_delivery :
    ConnectionManager → ℕ → PacketDeliveryStatus → Outcome ConnectionManager
unfolding pop clear_loop
on_packet_status_delivery c packet_id ack =
    if not (front_matches packet_id c.in_flight_lets_connect) then ok c else do
      let emptied = clear_loop c.in_flight_lets_connect
      queue ← pop emptied
      ok (record c {
        self_is_connected = true;
        in_flight_lets_connect = queue;
        num_lets_connect_to_send = 0;
      })
on_packet_status_delivery c packet_id drop =
    if not (front_matches packet_id c.in_flight_lets_connect) then ok c else do
      queue ← pop c.in_flight_lets_connect
      let more = if is_peer_connected c then 0 else 1
      ok (record c {
        in_flight_lets_connect = queue;
        num_lets_connect_to_send = c.num_lets_connect_to_send + more;
      })

-- The second size is read only if the first is large enough.
unfoldable pub validate : Span → Outcome Bool
validate message = do
  send_size ← LetsConnect.max_send_packet_size message
  if not (leb 100 send_size)
      then ok false
      else do read_size ← LetsConnect.max_read_packet_size message; ok (leb 100 read_size)

unfoldable pub set_peer_bandwidth_limit : ConnectionManager → Span → Outcome ConnectionManager
set_peer_bandwidth_limit c message = do
  read_rate ← LetsConnect.max_read_packet_rate message
  read_size ← LetsConnect.max_read_packet_size message
  send_rate ← LetsConnect.max_send_packet_rate message
  send_size ← LetsConnect.max_send_packet_size message
  let limit : BandwidthLimit = record {
    max_read_packet_rate = read_rate;
    max_read_packet_size = read_size;
    max_send_packet_rate = send_rate;
    max_send_packet_size = send_size;
  }
  ok (record c { peer_bandwidth_limit = some limit })

-- The case of `read` for a LetsConnect message: a request or a response.
unfoldable pub read_lets_connect : ConnectionManager → Span → Outcome ConnectionManager
unfolding validate set_peer_bandwidth_limit
read_lets_connect c message = do
  valid ← validate message
  if not valid
      then ok (record c { is_fail = true })
      else if c.is_initiator
      then set_peer_bandwidth_limit (record c { is_fail = false }) message
      else set_peer_bandwidth_limit
          (record c {
            is_fail = false;
            num_lets_connect_to_send = c.config.num_redundant_packets + 1;
          })
          message

-- The `switch` of `read` on the type of the message at `idx`.
unfoldable pub dispatch :
    ConnectionManager → Span → ℕ → ℕ → Outcome (Expected NeptunError ℕ × ConnectionManager)
unfolding read_lets_connect
dispatch c buffer message_type idx =
    if message_type == LetsConnect.k_id
    then (Io.advance buffer idx >>= λ message.
        read_lets_connect c message >>= λ c'. ok (value (idx + LetsConnect.serialized_size), c'))
    else if message_type == RejectLetsConnect.k_id
    then ok (unexpected lets_connect_rejected, c)
    else ok (unexpected malformed_packet, c)

unfoldable pub read :
    ConnectionManager → Span → Outcome (Expected NeptunError ℕ × ConnectionManager)
unfolding dispatch
read c buffer = if ltb (length buffer) Segment.serialized_size then ok (value 0, c) else do
  manager_type ← Segment.manager_type buffer
  if not (manager_type == Segment.connection_manager) then ok (value 0, c) else do
    message_count ← Segment.message_count buffer
    if not (message_count == 1) then ok (unexpected malformed_packet, c) else do
      header ← Io.advance buffer Segment.serialized_size
      message_type ← MessageHeader.message_type header
      dispatch c buffer message_type (Segment.serialized_size + MessageHeader.serialized_size)

-- The two branches of `write` on `is_fail`: the buffer and the index after the message at `idx`.
unfoldable pub write_message : ConnectionManager → Span → ℕ → Outcome (Span × ℕ)
write_message c buffer idx = do
  (b₁, _) ← write_after idx (λ b. MessageHeader.write b LetsConnect.k_id) buffer
  let after = idx + MessageHeader.serialized_size
  let limit = c.config.limit
  let rejection = write_after after (λ b. RejectLetsConnect.write b) b₁
  let request =
      write_after after
        (λ b.
          LetsConnect.write b limit.max_send_packet_rate limit.max_read_packet_rate
            limit.max_send_packet_size limit.max_read_packet_size)
        b₁
  if c.is_fail
      then (rejection >>= λ p. ok (p.0, after + RejectLetsConnect.serialized_size))
      else (request >>= λ p. ok (p.0, after + LetsConnect.serialized_size))

-- The buffer after it, the number of bytes and the manager.
unfoldable pub write : ConnectionManager → ℕ → Span → Outcome (Span × ℕ × ConnectionManager)
unfolding write_message
write c packet_id buffer = if not (ltb 0 c.num_lets_connect_to_send) then ok (buffer, 0, c) else do
  (b₁, payload) ← Segment.write buffer Segment.connection_manager 1
  (b₂, idx) ← write_message c b₁ (length payload)
  check (ltb idx (length buffer))
  ok (
    b₂,
    idx,
    record c {
      in_flight_lets_connect = c.in_flight_lets_connect ++ (packet_id ∷ []);
      num_lets_connect_to_send = c.num_lets_connect_to_send - 1;
    },
  )
