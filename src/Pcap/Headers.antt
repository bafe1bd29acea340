-- ===== src/Pcap/Headers.antt =====
-- neptun/pcap/file_format.h and main.cc: the headers of a captured packet.
use neptun.Common.{
  ℕ, zero, suc, ◌+◌, ◌*◌, [], ◌∷◌, ltb, ◌==◌, if◌then◌else◌, replicate, Outcome, ok, check, ◌>>=◌,
  ◌>>◌,
}
use neptun.Io.{Span, load, read_u16, read_byte_array, read_bits}

pub record EthernetFrame : Type 0 where
  pub destination_mac_address : Span
  pub source_mac_address : Span
  pub ether_type : ℕ

-- `sizeof(EthernetFrame)`, which has no padding.
abbrev pub ethernet_size : ℕ
ethernet_size = 6 + 6 + 2

abbrev pub ether_type_ipv4 : ℕ
ether_type_ipv4 = 0x0800

abbrev pub ip_protocol_udp : ℕ
ip_protocol_udp = 0x11

pub record Ipv4Header : Type 0 where
  pub version : ℕ
  pub ihl : ℕ
  pub dscp : ℕ
  pub ecn : ℕ
  pub total_length : ℕ
  pub identification : ℕ
  pub flags : ℕ
  pub fragment_offset : ℕ
  pub time_to_live : ℕ
  pub protocol : ℕ
  pub header_checksum : ℕ
  pub source_ip : ℕ
  pub destination_ip : ℕ
  pub options : Span

unfoldable pub ipv4_size : Ipv4Header → ℕ
ipv4_size header = if ltb 5 header.ihl then 56 else 20

pub record UdpHeader : Type 0 where
  pub source_port : ℕ
  pub destination_port : ℕ
  pub length : ℕ
  pub checksum : ℕ

abbrev pub udp_size : ℕ
udp_size = 4 * 2

-- A loop that copies an address, with `n` of its rounds left: both copy from `destination`.
unfoldable pub copy_address : ℕ → ℕ → Span → Outcome Span
copy_address zero i destination = ok []
copy_address (suc n) i destination = do
  byte ← load destination i
  rest ← copy_address n (i + 1) destination
  ok (byte ∷ rest)

unfoldable pub read_ether_frame : Span → Outcome EthernetFrame
unfolding copy_address
read_ether_frame payload = do
  destination ← read_byte_array payload 0 6
  destination_mac_address ← copy_address 6 0 destination
  _ ← read_byte_array payload 6 6
  source_mac_address ← copy_address 6 0 destination
  ether_type ← read_u16 payload (6 + 6)
  ok (record {
    destination_mac_address = destination_mac_address;
    source_mac_address = source_mac_address;
    ether_type = ether_type;
  })

-- It throws for a version other than 4. The options are not read.
unfoldable pub read_ipv4_header : Span → Outcome Ipv4Header
read_ipv4_header payload = do
  version ← read_bits 8 0 4 payload
  check (version == 4)
  ihl ← read_bits 8 4 8 payload
  dscp ← read_bits 8 8 14 payload
  ecn ← read_bits 8 14 16 payload
  total_length ← read_bits 16 16 32 payload
  identification ← read_bits 16 32 48 payload
  flags ← read_bits 8 48 51 payload
  fragment_offset ← read_bits 16 51 64 payload
  time_to_live ← read_bits 8 64 72 payload
  protocol ← read_bits 8 72 80 payload
  header_checksum ← read_bits 16 80 96 payload
  source_ip ← read_bits 32 96 128 payload
  destination_ip ← read_bits 32 128 160 payload
  ok (record {
    version = version;
    ihl = ihl;
    dscp = dscp;
    ecn = ecn;
    total_length = total_length;
    identification = identification;
    flags = flags;
    fragment_offset = fragment_offset;
    time_to_live = time_to_live;
    protocol = protocol;
    header_checksum = header_checksum;
    source_ip = source_ip;
    destination_ip = destination_ip;
    options = replicate 36 0;
  })

unfoldable pub read_udp_header : Span → Outcome UdpHeader
read_udp_header payload = do
  source_port ← read_u16 payload 0
  destination_port ← read_u16 payload 2
  length ← read_u16 payload 4
  checksum ← read_u16 payload 6
  ok (record {
    source_port = source_port;
    destination_port = destination_port;
    length = length;
    checksum = checksum;
  })
