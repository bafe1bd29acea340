-- ===== src/OsNetwork.antt =====
-- network/network.h, `OsNetwork`: the network of the operating system, on the platforms that are not
-- Windows. The system calls are operations on a state of the system, and the counters are global.
pub mod Calls
pub mod Tests
use neptun.Common.{
  ℕ, Bool, true, false, ◌==◌, if◌then◌else◌, length, Option, none, some, Outcome, ok, fault, check,
  ◌>>=◌, ◌>>◌,
}
use neptun.Io.{Span, subspan}
use neptun.IpAddress.{IpAddress}
use neptun.Metrics.{inc, inc_by}
use neptun.NetworkMetrics.{
  NetworkMetrics, packets_sent, packets_read, payload_ingress, payload_egress, network_metric_keys,
}
use neptun.Network.{Network, FileDescriptor, ReadPacketInfo}

-- The result of a call: a count, or -1 with an `errno` that is EWOULDBLOCK or another.
pub data Call : Type 0 where
  count : ℕ → Call
  would_block : Call
  failed : Call

-- The calls on a state `O` of the system. `socket` returns a descriptor, or none for -1; `bind`, `fcntl`
-- and `close` return whether they succeed; `recvfrom` returns with its result the sender and the bytes
-- of the buffer after it.
pub record Os (O : Type 0) : Type 0 where
  pub socket : O → Option ℕ × O
  pub bind : O → ℕ → IpAddress → Bool × O
  pub fcntl : O → ℕ → Bool × O
  pub close : O → ℕ → Bool × O
  pub recvfrom : O → ℕ → Span → Call × IpAddress × Span × O
  pub sendto : O → ℕ → Span → IpAddress → Call × O

-- The state of the system and `OS_NETWORK_METRICS`.
pub record OsState (O : Type 0) : Type 0 where
  pub system : O
  pub metrics : NetworkMetrics

module _ {O : Type 0} (os : Os O) where
  unfoldable pub bind : OsState O → FileDescriptor → IpAddress → Outcome (OsState O)
  bind n file_descriptor ip_address = do
    let (bound, system) = os.bind n.system file_descriptor.value ip_address
    check bound
    ok (record n { system = system })

  -- Neither does anything on these platforms.
  abbrev pub initialize : OsState O → OsState O
  initialize n = n

  abbrev pub shutdown : OsState O → OsState O
  shutdown n = n

  unfoldable pub udp_socket_ipv4 : OsState O → Outcome (FileDescriptor × OsState O)
  udp_socket_ipv4 n = do
    let (fd, system) = os.socket n.system
    elim fd [
      | none ↦ fault
      | some value ↦ ok (record { value = value }, record n { system = system })
    ]

  unfoldable pub set_non_blocking : OsState O → FileDescriptor → Outcome (OsState O)
  set_non_blocking n fd = do
    let (done, system) = os.fcntl n.system fd.value
    check done
    ok (record n { system = system })

  unfoldable pub close_socket : OsState O → FileDescriptor → Outcome (OsState O)
  close_socket n fd = do
    let (done, system) = os.close n.system fd.value
    check done
    ok (record n { system = system })

  -- What `read_from_socket` does with `count` bytes from a sender.
  unfoldable pub received :
      OsState O → ℕ → IpAddress → Span → Outcome (Option ReadPacketInfo × Span × OsState O)
  unfolding inc inc_by
  received n read_bytes sender buffer = do
    metrics ← inc n.metrics packets_read
    metrics' ← inc_by metrics payload_ingress read_bytes
    payload ← subspan buffer 0 read_bytes
    ok (
      some (record { sender = sender; payload = payload }),
      buffer,
      record n { metrics = metrics' },
    )

  unfoldable pub read_from_socket :
      OsState O → FileDescriptor → Span → Outcome (Option ReadPacketInfo × Span × OsState O)
  unfolding received
  read_from_socket n fd buffer = do
    let (result, sender, buffer', system) = os.recvfrom n.system fd.value buffer
    let n' : OsState O = record n { system = system }
    elim result [
      | would_block ↦ ok (none, buffer', n')
      | failed ↦ fault
      | count read_bytes ↦
          if read_bytes == 0 then ok (none, buffer', n') else received n' read_bytes sender buffer'
    ]

  -- What `send_to` does once the system has taken `count` bytes: all are expected to be taken.
  unfoldable pub sent : OsState O → ℕ → Span → Outcome (ℕ × OsState O)
  unfolding inc inc_by
  sent n sent_bytes payload = do
    check (sent_bytes == length payload)
    metrics ← inc n.metrics packets_sent
    metrics' ← inc_by metrics payload_egress sent_bytes
    ok (sent_bytes, record n { metrics = metrics' })

  unfoldable pub send_to : OsState O → FileDescriptor → IpAddress → Span → Outcome (ℕ × OsState O)
  unfolding sent
  send_to n fd ip_address payload = do
    let (result, system) = os.sendto n.system fd.value payload ip_address
    elim result [
      | would_block ↦ fault
      | failed ↦ fault
      | count sent_bytes ↦ sent (record n { system = system }) sent_bytes payload
    ]

  -- The network that UdpSocket and Neptun are given.
  abbrev pub network : Network (OsState O)
  network = record {
    udp_socket_ipv4 = udp_socket_ipv4;
    bind = bind;
    set_non_blocking = set_non_blocking;
    read_from_socket = read_from_socket;
    send_to = send_to;
  }
