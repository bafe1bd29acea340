-- ===== src/FakeNetwork.antt =====
-- network/fake_network.h: the network that the tests and the benchmarks run on.
-- What `send_to` prints is the list of its lines, the last line first.
pub mod Steps
pub mod Delivery
pub mod Binding
pub mod Sockets
pub mod Tests
use neptun.Common.{
  ℕ, zero, suc, ◌+◌, ◌%◌, ◌^◌, ◌≡◌, List, [], ◌∷◌, ◌++◌, take, length, Bool, true, false, not, ◌&&◌,
  ◌||◌, ltb, leb, ◌==◌, if◌then◌else◌, Option, none, some, Outcome, ok, fault, check, ◌>>=◌, ◌>>◌,
}
use neptun.Io.{Span, load, first, subspan}
use neptun.IpAddress.{IpAddress, to_string}
use neptun.IpMap.{IpMap, find, insert, find_or}
use neptun.Network.{Network, FileDescriptor, ReadPacketInfo}

abbrev pub k_reasonable_mtu : ℕ
k_reasonable_mtu = 1400

pub record PendingPacket : Type 0 where
  pub sender : IpAddress
  pub payload : Span

-- `UdpPackets`: the queue of packets, the front first.
abbrev pub UdpPackets : Type 0
UdpPackets = List PendingPacket

abbrev pub socket_predicate : FileDescriptor → IpAddress × FileDescriptor → Bool
socket_predicate socket_fd candidate = socket_fd.value == candidate.1.value

-- `==` of two texts.
unfoldable pub same_text : Span → Span → Bool
same_text [] [] = true
same_text [] (d ∷ t) = false
same_text (c ∷ s) [] = false
same_text (c ∷ s) (d ∷ t) = c == d && same_text s t

unfoldable pub ip_address_or_socket_predicate :
    FileDescriptor → IpAddress → IpAddress × FileDescriptor → Bool
unfolding same_text
ip_address_or_socket_predicate socket_fd ip candidate =
    same_text (to_string ip) (to_string candidate.0) || socket_fd.value == candidate.1.value

pub record Stats : Type 0 where
  pub num_sent_packets : ℕ
  pub num_read_packets : ℕ
  pub num_sent_bytes : ℕ
  pub num_read_bytes : ℕ

abbrev pub no_stats : Stats
no_stats = record {
  num_sent_packets = 0;
  num_read_packets = 0;
  num_sent_bytes = 0;
  num_read_bytes = 0;
}

-- The maps `m_buffers` and `m_stats` have the keys' default values where they have no entry.
pub record FakeNetwork : Type 0 where
  pub packet_formatter : Option (Span → Span)
  pub should_log_packets : Bool
  pub mtu : ℕ
  pub next_fd : ℕ
  pub should_drop_packets : Bool
  pub bound : List (IpAddress × FileDescriptor)
  pub buffers : IpMap UdpPackets
  pub stats_by_ip : IpMap Stats
  pub output : List Span

unfoldable pub init : ℕ → FakeNetwork
init mtu = record {
  packet_formatter = none;
  should_log_packets = false;
  mtu = mtu;
  next_fd = 0;
  should_drop_packets = false;
  bound = [];
  buffers = [];
  stats_by_ip = [];
  output = [];
}

-- `std::find_if`: the first element that satisfies the predicate.
unfoldable pub find_if {ℓ} : {A : Type ℓ} → (A → Bool) → List A → Option A
find_if p [] = none
find_if p (x ∷ xs) = let rest = find_if p xs in if p x then some x else rest

unfoldable pub is_socket_open : FakeNetwork → FileDescriptor → Bool
is_socket_open n fd = ltb fd.value n.next_fd

abbrev pub address_of : Option (IpAddress × FileDescriptor) → Option IpAddress
address_of none = none
address_of (some it) = some it.0

unfoldable pub find_ip : FakeNetwork → FileDescriptor → Option IpAddress
unfolding find_if
find_ip n socket_fd = address_of (find_if (socket_predicate socket_fd) n.bound)

abbrev pub has_value {ℓ} : {A : Type ℓ} → Option A → Bool
has_value none = false
has_value (some a) = true

abbrev pub is_none {ℓ} : {A : Type ℓ} → Option A → Bool
is_none none = true
is_none (some a) = false

unfoldable pub is_socket_bound : FakeNetwork → FileDescriptor → Bool
unfolding find_ip
is_socket_bound n fd = has_value (find_ip n fd)

-- It throws for a socket that is not open, and for a socket or an address that is bound.
unfoldable pub bind : FakeNetwork → FileDescriptor → IpAddress → Outcome FakeNetwork
unfolding is_socket_open find_if
bind n fd ip_address = do
  check (is_socket_open n fd)
  check (is_none (find_if (ip_address_or_socket_predicate fd ip_address) n.bound))
  ok (record n { bound = n.bound ++ ((ip_address, fd) ∷ []) })

-- The counter is an `int`, whose overflow is undefined.
unfoldable pub udp_socket_ipv4 : FakeNetwork → Outcome (FileDescriptor × FakeNetwork)
udp_socket_ipv4 n = do
  let fd = n.next_fd
  check (ltb (fd + 1) (2 ^ 31))
  ok (record { value = fd }, record n { next_fd = fd + 1 })

abbrev pub set_non_blocking : FakeNetwork → FileDescriptor → Outcome FakeNetwork
set_non_blocking n fd = ok n

-- The loop of `read_from_socket` over the buffer: its bytes after it, and the final `idx`.
unfoldable pub copy_loop : Span → Span → ℕ → Outcome (Span × ℕ)
copy_loop [] payload idx = ok ([], idx)
copy_loop (b ∷ buffer) payload idx =
    if leb (length payload) idx
    then ok (b ∷ buffer, idx)
    else (load payload idx >>= λ byte.
        copy_loop buffer payload (idx + 1) >>= λ rest. ok (byte ∷ rest.0, rest.1))

unfoldable pub count_read : Stats → Span → Stats
count_read stats payload = record stats {
  num_read_packets = (stats.num_read_packets + 1) % 2 ^ 64;
  num_read_bytes = (stats.num_read_bytes + length payload) % 2 ^ 64;
}

-- What `read_from_socket` does with the packets for the socket's address. The subscript of a map makes
-- the entry that it does not find.
unfoldable pub read_packets :
    FakeNetwork
    → IpAddress
    → UdpPackets
    → Span
    → Outcome (Option ReadPacketInfo × Span × FakeNetwork)
unfolding copy_loop count_read find_or insert
read_packets n ip [] buffer = ok (none, buffer, record n { buffers = insert n.buffers ip [] })
read_packets n ip (packet ∷ packets) buffer = do
  let stats = count_read (find_or n.stats_by_ip ip no_stats) packet.payload
  (buffer', idx) ← copy_loop buffer packet.payload 0
  payload ← subspan buffer' 0 idx
  ok (
    some (record { sender = packet.sender; payload = payload }),
    buffer',
    record n { buffers = insert n.buffers ip packets; stats_by_ip = insert n.stats_by_ip ip stats },
  )

-- It throws for a socket that is not bound.
unfoldable pub read_from_socket :
    FakeNetwork → FileDescriptor → Span → Outcome (Option ReadPacketInfo × Span × FakeNetwork)
unfolding find_ip find_or read_packets
read_from_socket n fd buffer = elim (find_ip n fd) [
  | none ↦ fault
  | some ip ↦ read_packets n ip (find_or n.buffers ip []) buffer
]

unfoldable pub count_sent : Stats → Span → Stats
count_sent stats payload = record stats {
  num_sent_packets = (stats.num_sent_packets + 1) % 2 ^ 64;
  num_sent_bytes = (stats.num_sent_bytes + length payload) % 2 ^ 64;
}

-- `Send[<sender> -> <receiver>] <text of the payload>`.
abbrev pub log_line : FakeNetwork → IpAddress → IpAddress → Span → Span
log_line n sender_ip ip_address payload =
    let no_formatter : Span =
      b'<' ∷ b'n' ∷ b'o' ∷ b' ' ∷ b'f' ∷ b'o' ∷ b'r' ∷ b'm' ∷ b'a' ∷ b't' ∷ b't' ∷ b'e' ∷ b'r'
      ∷ b'>' ∷ [] in
    (b'S' ∷ b'e' ∷ b'n' ∷ b'd' ∷ b'[' ∷ [])
    ++ (to_string sender_ip
        ++ ((b' ' ∷ b'-' ∷ b'>' ∷ b' ' ∷ [])
            ++ (to_string ip_address
                ++ ((b']' ∷ b' ' ∷ [])
                    ++ elim n.packet_formatter [ none ↦ no_formatter | some f ↦ f payload ]))))

-- What `send_to` does once the sender's address is known: the payload is cut to the MTU.
unfoldable pub send_from : FakeNetwork → IpAddress → IpAddress → Span → ℕ × FakeNetwork
unfolding count_sent find_or insert
send_from n sender ip_address payload =
    let stats = count_sent (find_or n.stats_by_ip sender no_stats) payload in
    let counted : FakeNetwork = record n { stats_by_ip = insert n.stats_by_ip sender stats } in
    let cut = if ltb n.mtu (length payload) then take n.mtu payload else payload in
    let packet : PendingPacket = record { sender = sender; payload = cut } in
    let queue = find_or n.buffers ip_address [] ++ (packet ∷ []) in
    let line = if n.should_log_packets then log_line n sender ip_address payload ∷ [] else [] in
    let sent : FakeNetwork = record counted {
      buffers = insert n.buffers ip_address queue;
      output = line ++ n.output;
    } in
    (length payload, if n.should_drop_packets then counted else sent)

-- It throws for a socket that is not bound.
unfoldable pub send_to : FakeNetwork → FileDescriptor → IpAddress → Span → Outcome (ℕ × FakeNetwork)
unfolding is_socket_bound find_ip send_from
send_to n sender_fd ip_address payload = do
  check (is_socket_bound n sender_fd)
  elim (find_ip n sender_fd) [
    | none ↦ fault
    | some sender ↦ ok (send_from n sender ip_address payload)
  ]

unfoldable pub log_packets : FakeNetwork → Bool → FakeNetwork
log_packets n should_log = record n { should_log_packets = should_log }

unfoldable pub set_packet_formatter : FakeNetwork → (Span → Span) → FakeNetwork
set_packet_formatter n packet_formatter = record n { packet_formatter = some packet_formatter }

unfoldable pub drop_packets : FakeNetwork → Bool → FakeNetwork
drop_packets n should_drop_packets = record n { should_drop_packets = should_drop_packets }

unfoldable pub stats : FakeNetwork → IpAddress → Stats
unfolding find_or
stats n ip = find_or n.stats_by_ip ip no_stats

unfoldable pub clear_stats : FakeNetwork → FakeNetwork
clear_stats n = record n { stats_by_ip = [] }

-- The network that UdpSocket and Neptun are given.
abbrev pub network : Network FakeNetwork
network = record {
  udp_socket_ipv4 = udp_socket_ipv4;
  bind = bind;
  set_non_blocking = set_non_blocking;
  read_from_socket = read_from_socket;
  send_to = send_to;
}
