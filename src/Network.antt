-- ===== src/Network.antt =====
-- network/network.h: what a network offers.
-- The code takes the network as a template parameter: here it is a record of operations on a state.
use neptun.Common.{ℕ, Option, Outcome}
use neptun.Io.{Span}
use neptun.IpAddress.{IpAddress}

pub record FileDescriptor : Type 0 where
  pub value : ℕ

pub record ReadPacketInfo : Type 0 where
  pub sender : IpAddress
  pub payload : Span

-- A read returns the bytes of the buffer after it, of which the payload is a part.
pub record Network (N : Type 0) : Type 0 where
  pub udp_socket_ipv4 : N → Outcome (FileDescriptor × N)
  pub bind : N → FileDescriptor → IpAddress → Outcome N
  pub set_non_blocking : N → FileDescriptor → Outcome N
  pub read_from_socket : N → FileDescriptor → Span → Outcome (Option ReadPacketInfo × Span × N)
  pub send_to : N → FileDescriptor → IpAddress → Span → Outcome (ℕ × N)
