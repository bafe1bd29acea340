-- ===== src/Pcap/Records.antt =====
-- A captured datagram of Neptun, and what is printed of it.
use neptun.Common.{
  ℕ, ◌+◌, ◌-◌, ◌^◌, ◌≤◌, ◌<◌, ◌≡◌, ◌⊎◌, refl, sym, ap, ◌∙◌, List, [], ◌∷◌, ◌++◌, append_assoc,
  arith, length, length-append, take, drop, min, take-append, All, ◌==◌, ==_iff, ◌||◌, true,
  le→ltb_false, ok,
}
use neptun.Io.{Span, read_u16, read_byte_array}
use neptun.Io.Encode.{big_endian, load-append, read_unsigned-big_endian, advance-append}
use neptun.Io.Fields.{read_byte_array_inside}
use neptun.IpAddress.{IpAddress, from_u32}
use neptun.Messages.PacketHeader
use neptun.Format.{header_text}
use neptun.Format.Packets.{
  Part, reliable, unreliable, IsPart, part_bytes, parts_bytes, parts_text,
  format_neptun_payload-encoding,
}
use neptun.Pcap.Headers.{
  Ipv4Header, UdpHeader, read_ether_frame, read_udp_header, copy_address, ipv4_size,
}
use neptun.Pcap.Datagram.{ipv4_bytes, IsIpv4, read_ipv4_header-bytes}
use neptun.Pcap.{
  PcapRecordHeader, erase_newline, neptun_structure, udp_line, to_time_t, process_udp, process_ip,
  process_record,
}

copy_address_lem :
    (i : ℕ) (pre b : Span) → i ≡ length pre → copy_address (length b) i (pre ++ b) ≡ ok b
unfolding copy_address
copy_address_lem i pre [] e = refl
copy_address_lem i pre (x ∷ b) e =
    rw
      (
        load-append pre x b i e,
        ← append_assoc pre (x ∷ []) b,
        copy_address_lem (i + 1) (pre ++ (x ∷ [])) b (omega (arith, length-append pre (x ∷ []))),
      )
      refl

-- The fourteen bytes of a frame's header.
abbrev pub frame_bytes : Span → Span → ℕ → Span
frame_bytes destination source ether_type = destination ++ (source ++ big_endian 2 ether_type)

-- `read_ether_frame` of a frame: the destination and the type are those of the frame, but the source that
-- it gives is the destination, whatever the source is.
pub read_ether_frame-bytes :
    (destination source : Span) (ether_type : ℕ) (rest : Span)
    → length destination ≡ 6
    → length source ≡ 6
    → ether_type < 2 ^ 16
    → read_ether_frame (frame_bytes destination source ether_type ++ rest)
      ≡ ok (record {
        destination_mac_address = destination;
        source_mac_address = destination;
        ether_type = ether_type;
      })
unfolding read_ether_frame
read_ether_frame-bytes destination source ether_type rest d s t =
    let behind = big_endian 2 ether_type ++ rest in
    let whole = destination ++ (source ++ behind) in
    let shape : frame_bytes destination source ether_type ++ rest ≡ whole =
      append_assoc destination (source ++ big_endian 2 ether_type) rest
      ∙ ap (λ (b : Span). destination ++ b) (append_assoc source (big_endian 2 ether_type) rest) in
    let long : length whole ≡ 12 + length behind =
      omega (arith, length-append destination (source ++ behind), length-append source behind) in
    let six : min (length whole - 0) 6 ≡ length destination = omega (arith, long, d) in
    let first : read_byte_array whole 0 6 ≡ ok destination =
      read_byte_array_inside 0 6 whole (omega arith)
      ∙ ap (λ (b : Span). ok b)
          (take-append (min (length whole - 0) 6) destination (source ++ behind) six) in
    let second : read_byte_array whole 6 6 ≡ ok (take (min (length whole - 6) 6) (drop 6 whole)) =
      read_byte_array_inside 6 6 whole (omega (arith, long)) in
    let copied : copy_address 6 0 destination ≡ ok destination =
      ap (λ (n : ℕ). copy_address n 0 destination) (sym d)
      ∙ copy_address_lem 0 [] destination refl in
    let kind : read_u16 whole 12 ≡ ok ether_type =
      ap (λ (b : Span). read_u16 b 12) (sym (append_assoc destination source behind))
      ∙ read_unsigned-big_endian 2 ether_type 12 (destination ++ source) rest
          (omega (arith, length-append destination source, d, s)) t in
    rw (shape, first, copied, second, kind) refl

abbrev pub udp_bytes : UdpHeader → Span
udp_bytes u =
    big_endian 2 u.source_port
    ++ (big_endian 2 u.destination_port ++ (big_endian 2 u.length ++ big_endian 2 u.checksum))

pub record IsUdp (u : UdpHeader) : Type 0 where
  pub source_port : u.source_port < 2 ^ 16
  pub destination_port : u.destination_port < 2 ^ 16
  pub size : u.length < 2 ^ 16
  pub checksum : u.checksum < 2 ^ 16

read_udp_header-bytes :
    (u : UdpHeader) (rest : Span) → IsUdp u → read_udp_header (udp_bytes u ++ rest) ≡ ok u
unfolding read_udp_header
read_udp_header-bytes u rest v =
    let b = udp_bytes u in
    rw
      (
        read_unsigned-big_endian 2 u.source_port 0 [] (drop 2 b ++ rest) refl v.source_port,
        read_unsigned-big_endian 2 u.destination_port 2 (take 2 b) (drop 4 b ++ rest) refl
            v.destination_port,
        read_unsigned-big_endian 2 u.length 4 (take 4 b) (drop 6 b ++ rest) refl v.size,
        read_unsigned-big_endian 2 u.checksum 6 (take 6 b) rest refl v.checksum,
      )
      refl

erase_newline_lem : (s : Span) → erase_newline (s ++ (b'\n' ∷ [])) ≡ ok s
unfolding erase_newline
erase_newline_lem [] = refl
erase_newline_lem (c ∷ []) = refl
erase_newline_lem (c ∷ d ∷ s) = rw (erase_newline_lem (d ∷ s)) refl

length-parts : (parts : List Part) → length parts ≤ length (parts_bytes parts)
length-parts [] = omega arith
length-parts (reliable ms ∷ parts) =
    omega (arith, length-parts parts, length-append (part_bytes (reliable ms)) (parts_bytes parts))
length-parts (unreliable ps ∷ parts) =
    omega
      (arith, length-parts parts, length-append (part_bytes (unreliable ps)) (parts_bytes parts))

known_port : (port : ℕ) → (port ≡ 7778) ⊎ (port ≡ 7779) → (port == 7778 || port == 7779) ≡ true
known_port port h = ground (arith, h)

-- The payload of a datagram from a known port is printed as a packet.
structure_lem :
    (ip : IpAddress) (id acks bitmask : ℕ) (parts : List Part)
    → (ip.port ≡ 7778) ⊎ (ip.port ≡ 7779)
    → id < 2 ^ 32
    → acks < 2 ^ 32
    → bitmask < 2 ^ 32
    → All IsPart parts
    → neptun_structure ip (PacketHeader.encoding id acks bitmask ++ parts_bytes parts)
      ≡ ok (header_text id acks bitmask ++ parts_text [] parts)
unfolding neptun_structure
structure_lem ip id acks bitmask parts port i a b v =
    let payload = PacketHeader.encoding id acks bitmask ++ parts_bytes parts in
    let enough : length parts ≤ length payload = omega (arith, length-parts parts) in
    rw
      (
        known_port ip.port port,
        format_neptun_payload-encoding (length payload) id acks bitmask parts i a b enough v,
      )
      refl

-- A datagram with a packet of Neptun, in its frame.
pub record Captured : Type 0 where
  pub destination : Span
  pub source : Span
  pub ip_header : Ipv4Header
  pub udp_header : UdpHeader
  pub id : ℕ
  pub acks : ℕ
  pub bitmask : ℕ
  pub parts : List Part

-- It is of IPv4, without options, and comes from one of the known ports.
pub record IsCaptured (c : Captured) : Type 0 where
  pub destination : length c.destination ≡ 6
  pub source : length c.source ≡ 6
  pub ip_header : IsIpv4 c.ip_header
  pub no_options : c.ip_header.ihl ≤ 5
  pub protocol : c.ip_header.protocol ≡ 17
  pub udp_header : IsUdp c.udp_header
  pub port : (c.udp_header.source_port ≡ 7778) ⊎ (c.udp_header.source_port ≡ 7779)
  pub id : c.id < 2 ^ 32
  pub acks : c.acks < 2 ^ 32
  pub bitmask : c.bitmask < 2 ^ 32
  pub parts : All IsPart c.parts

abbrev packet_bytes : Captured → Span
packet_bytes c = PacketHeader.encoding c.id c.acks c.bitmask ++ parts_bytes c.parts

abbrev pub captured_bytes : Captured → Span
captured_bytes c =
    frame_bytes c.destination c.source 2048
    ++ (ipv4_bytes c.ip_header ++ (udp_bytes c.udp_header ++ packet_bytes c))

-- A captured datagram of IPv4 without options from one of the known ports is printed as one line: the
-- number of the record, its time, both addresses, the length, and the text of the packet in it. The C
-- library's text of the time ends in a line's end, which is left out.
pub process_record-bytes :
    (ctime : ℕ → Span) (header : PcapRecordHeader) (index : ℕ) (time : Span) (c : Captured)
    → ctime (to_time_t header.ts_sec header.ts_usec) ≡ time ++ (b'\n' ∷ [])
    → IsCaptured c
    → process_record ctime header (captured_bytes c) index
      ≡ ok (
          udp_line index time
            (from_u32 c.ip_header.source_ip c.udp_header.source_port)
            (from_u32 c.ip_header.destination_ip c.udp_header.destination_port)
            c.udp_header.length
            (header_text c.id c.acks c.bitmask ++ parts_text [] c.parts)
          ∷ [])
unfolding process_record process_ip process_udp ipv4_size from_u32
process_record-bytes ctime header index time c clock v =
    let datagram = udp_bytes c.udp_header ++ packet_bytes c in
    let ip = ipv4_bytes c.ip_header ++ datagram in
    let tail = c.source ++ big_endian 2 2048 in
    let frame = frame_bytes c.destination c.source 2048 in
    let fourteen : 14 ≡ length frame = omega (
      arith,
      length-append c.destination tail,
      length-append c.source (big_endian 2 2048),
      v.destination,
      v.source,
    ) in
    rw
      (
        read_ether_frame-bytes c.destination c.source 2048 ip v.destination v.source (omega arith),
        advance-append 14 frame ip fourteen,
        read_ipv4_header-bytes c.ip_header v.ip_header datagram,
        le→ltb_false 5 c.ip_header.ihl v.no_options,
        advance-append 20 (ipv4_bytes c.ip_header) datagram refl,
        (==_iff c.ip_header.protocol 17).1 v.protocol,
        read_udp_header-bytes c.udp_header (packet_bytes c) v.udp_header,
        advance-append 8 (udp_bytes c.udp_header) (packet_bytes c) refl,
        ap erase_newline clock ∙ erase_newline_lem time,
        structure_lem (from_u32 c.ip_header.source_ip c.udp_header.source_port) c.id c.acks
            c.bitmask c.parts v.port v.id v.acks v.bitmask v.parts,
      )
      refl
