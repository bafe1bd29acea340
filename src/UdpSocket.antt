-- ===== src/UdpSocket.antt =====
-- network/udp_socket.h: a UDP socket over a network.
use neptun.Common.{ℕ, Option, Outcome, ok, ◌>>=◌}
use neptun.Io.{Span}
use neptun.IpAddress.{IpAddress}
use neptun.Network.{Network, FileDescriptor, ReadPacketInfo}

pub record UdpSocket : Type 0 where
  pub fd : FileDescriptor
  pub ip : IpAddress

module _ {N : Type 0} (network : Network N) where
  unfoldable pub bind : IpAddress → N → Outcome (UdpSocket × N)
  bind ip n₀ = do
    (fd, n₁) ← network.udp_socket_ipv4 n₀
    let socket : UdpSocket = record { fd = fd; ip = ip }
    n₂ ← network.bind n₁ fd ip
    n₃ ← network.set_non_blocking n₂ fd
    ok (socket, n₃)

  unfoldable pub read : UdpSocket → Span → N → Outcome (Option ReadPacketInfo × Span × N)
  read s buffer n = network.read_from_socket n s.fd buffer

  unfoldable pub send_to : UdpSocket → IpAddress → Span → N → Outcome (ℕ × N)
  send_to s ip payload n = network.send_to n s.fd ip payload
