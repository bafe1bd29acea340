-- ===== src/Pcap/Tests.antt =====
-- The theorems of Pcap at concrete captures.
use neptun.Common.{
  ℕ, [], ◌∷◌, ◌++◌, ◌≡◌, ◌≢◌, ◌/◌, ◌%◌, ◌^◌, ◌-◌, refl, inl, false, true, none, some, ok, ◌>>=◌,
  arith, replicate, codes,
}
use neptun.Io.{Span, read_bits}
use neptun.Io.Encode.{value}
use neptun.Io.BitFields.{read_bits_lem}
use neptun.IpAddress.{from_u32}
use neptun.Format.{header_text}
use neptun.Format.Packets.{reliable, parts_text}
use neptun.Pcap.Headers.{Ipv4Header, read_ether_frame, read_ipv4_header}
use neptun.Pcap.Datagram.{ipv4_bytes, IsIpv4, read_ipv4_header-bytes}
use neptun.Pcap.Records.{
  Captured, IsCaptured, captured_bytes, frame_bytes, read_ether_frame-bytes, process_record-bytes,
}
use neptun.Pcap.Files.{Entry, IsEntry, entries_bytes, process_all, process_pcap_file-bytes}
use neptun.Pcap.Ends.{process_pcap_file-ne-none, read_packet_data_cut}
use neptun.Pcap.{
  PcapRecordHeader, udp_line, process_record, process_pcap_file, last_line, read_packet_data,
}

-- The flags of an IPv4 header, three bits in its seventh byte.
read_bits_lem_example :
    read_bits 8 16 19 (1 ∷ 2 ∷ 0xe0 ∷ 7 ∷ 9 ∷ [])
    ≡ ok (value (0xe0 ∷ 7 ∷ []) / 2 ^ (16 - 3) % 2 ^ (3 - 0))
read_bits_lem_example =
    read_bits_lem 8 0 3 (1 ∷ 2 ∷ []) (0xe0 ∷ 7 ∷ []) (9 ∷ []) 16 19 refl refl (omega arith)
      (omega arith) (omega arith) (omega arith) (omega arith) (omega arith, (omega arith, tt))

abbrev ip_header : Ipv4Header
ip_header = record {
  version = 4;
  ihl = 5;
  dscp = 1;
  ecn = 2;
  total_length = 300;
  identification = 1000;
  flags = 2;
  fragment_offset = 0;
  time_to_live = 64;
  protocol = 17;
  header_checksum = 65535;
  source_ip = 2130706433;
  destination_ip = 2130706434;
  options = [];
}

ip_header-IsIpv4 : IsIpv4 ip_header
ip_header-IsIpv4 = record {
  version = refl;
  ihl = omega arith;
  dscp = omega arith;
  ecn = omega arith;
  total_length = omega arith;
  identification = omega arith;
  flags = omega arith;
  fragment_offset = omega arith;
  time_to_live = omega arith;
  protocol = omega arith;
  header_checksum = omega arith;
  source_ip = omega arith;
  destination_ip = omega arith;
}

read_ipv4_header_example :
    read_ipv4_header (ipv4_bytes ip_header ++ (1 ∷ 2 ∷ []))
    ≡ ok (record ip_header { options = replicate 36 0 })
read_ipv4_header_example = read_ipv4_header-bytes ip_header ip_header-IsIpv4 (1 ∷ 2 ∷ [])

abbrev here : Span
here = 1 ∷ 2 ∷ 3 ∷ 4 ∷ 5 ∷ 6 ∷ []

abbrev there : Span
there = 7 ∷ 8 ∷ 9 ∷ 10 ∷ 11 ∷ 12 ∷ []

-- The source is lost.
read_ether_frame_example :
    read_ether_frame (frame_bytes here there 2048 ++ [])
    ≡ ok (record { destination_mac_address = here; source_mac_address = here; ether_type = 2048 })
read_ether_frame_example = read_ether_frame-bytes here there 2048 [] refl refl (omega arith)

abbrev captured : Captured
captured = record {
  destination = here;
  source = there;
  ip_header = ip_header;
  udp_header = record { source_port = 7778; destination_port = 7779; length = 29; checksum = 0 };
  id = 3;
  acks = 2;
  bitmask = 1;
  parts = reliable ((5, 255 ∷ []) ∷ []) ∷ [];
}

captured-IsCaptured : IsCaptured captured
captured-IsCaptured = record {
  destination = refl;
  source = refl;
  ip_header = ip_header-IsIpv4;
  no_options = omega arith;
  protocol = refl;
  udp_header = record {
    source_port = omega arith;
    destination_port = omega arith;
    size = omega arith;
    checksum = omega arith;
  };
  port = inl refl;
  id = omega arith;
  acks = omega arith;
  bitmask = omega arith;
  parts = ((omega arith, ((omega arith, omega arith, omega arith), tt)), tt);
}

-- A clock that shows each time as noon.
abbrev noon : ℕ → Span
noon time = codes "12:00" ++ (b'\n' ∷ [])

abbrev at_noon : PcapRecordHeader
at_noon = record { ts_sec = 1; ts_usec = 2; incl_len = 63; orig_len = 63 }

process_record_example :
    process_record noon at_noon (captured_bytes captured) 1
    ≡ ok (
        udp_line 1
          (codes "12:00")
          (from_u32 2130706433 7778)
          (from_u32 2130706434 7779)
          29
          (header_text 3 2 1 ++ parts_text [] captured.parts)
        ∷ [])
process_record_example =
    process_record-bytes noon at_noon 1 (codes "12:00") captured refl captured-IsCaptured

abbrev entry : Entry
entry = record { header = at_noon; payload = captured_bytes captured }

entry-IsEntry : IsEntry 255 entry
entry-IsEntry = record {
  ts_sec = omega arith;
  ts_usec = omega arith;
  incl_len = refl;
  orig_len = refl;
  some_payload = omega arith;
  fits = omega arith;
  space_lt = omega arith;
}

-- The bytes of a global header, in the order of the host, with a limit of 255 bytes.
abbrev memory : Span
memory =
    0xd4
    ∷ 0xc3
    ∷ 0xb2
    ∷ 0xa1
    ∷ 2
    ∷ 0
    ∷ 4
    ∷ 0
    ∷ (replicate 8 0 ++ (255 ∷ 0 ∷ 0 ∷ 0 ∷ 1 ∷ 0 ∷ 0 ∷ 0 ∷ []))

process_pcap_file_example :
    process_pcap_file noon 3
      (record { content = memory ++ entries_bytes (entry ∷ entry ∷ []); eof = false })
    ≡ (process_all noon 0 (entry ∷ entry ∷ []) >>= λ lines. ok (some (lines ++ (last_line 2 ∷ []))))
process_pcap_file_example =
    process_pcap_file-bytes noon 3 memory (entry ∷ entry ∷ []) refl (λ h. omega (arith, h))
      (omega arith) (entry-IsEntry, (entry-IsEntry, tt))

process_pcap_file-ne-none_example :
    process_pcap_file noon 30 (record { content = memory; eof = false }) ≢ ok none
process_pcap_file-ne-none_example =
    process_pcap_file-ne-none noon 30 (record { content = memory; eof = false }) (omega arith)

-- Two bytes of four are there, and two are of an earlier record.
read_packet_data_cut_example :
    read_packet_data
      (record { content = 1 ∷ 2 ∷ []; eof = false })
      (record { ts_sec = 0; ts_usec = 0; incl_len = 4; orig_len = 4 })
      (9 ∷ 8 ∷ 7 ∷ 6 ∷ 5 ∷ [])
    ≡ ok (1 ∷ 2 ∷ 7 ∷ 6 ∷ [], 1 ∷ 2 ∷ 7 ∷ 6 ∷ 5 ∷ [], record { content = []; eof = true })
read_packet_data_cut_example =
    read_packet_data_cut (1 ∷ 2 ∷ [])
      (record { ts_sec = 0; ts_usec = 0; incl_len = 4; orig_len = 4 }) (9 ∷ 8 ∷ 7 ∷ 6 ∷ 5 ∷ []) refl
      (omega arith) (omega arith)
