-- ===== src/Pcap.antt =====
-- neptun/pcap/file_format.h and main.cc: the captured packets of a file, printed.
-- The host is little-endian. A file is what is left to read of it. The standard output is the list of
-- its lines.
pub mod Headers
pub mod Datagram
pub mod Records
pub mod Files
pub mod Ends
pub mod Tests
use neptun.Common.{
  ℕ, zero, suc, ◌+◌, ◌-◌, ◌*◌, ◌/◌, ◌^◌, List, [], ◌∷◌, ◌++◌, Bool, true, false, not, ◌||◌, ltb,
  leb, ◌==◌, if◌then◌else◌, length, take, drop, replicate, Option, none, some, Outcome, ok, fault,
  check, ◌>>=◌, ◌>>◌, codes,
}
use neptun.Common.Int.{ℤ, pos, negsuc}
use neptun.Io.{Span, advance}
use neptun.IpAddress.{IpAddress, from_u32, to_string, decimal}
use neptun.Format.{format_neptun_payload}
use neptun.Pcap.Headers.{
  EthernetFrame, Ipv4Header, UdpHeader, ethernet_size, ipv4_size, udp_size, ether_type_ipv4,
  ip_protocol_udp, read_ether_frame, read_ipv4_header, read_udp_header,
}

-- A `std::fstream` that was opened for reading.
pub record File : Type 0 where
  pub content : Span
  pub eof : Bool

-- `read`: the bytes that it gets. At the end of the file it gets fewer, and once it has met the end none.
unfoldable pub read : File → ℕ → Span × File
read file count =
    if file.eof
    then ([], file)
    else if ltb (length file.content) count
    then (file.content, record { content = []; eof = true })
    else (take count file.content, record { content = drop count file.content; eof = false })

-- The number of bytes in memory, lowest first.
abbrev pub little_endian : Span → ℕ
little_endian [] = 0
little_endian (x ∷ xs) = x + 256 * little_endian xs

-- A member of a structure in memory, by its offset and size.
abbrev pub member : Span → ℕ → ℕ → ℕ
member memory offset size = little_endian (take size (drop offset memory))

abbrev signed : ℕ → ℤ
signed n = if ltb n (2 ^ 31) then pos n else negsuc (2 ^ 32 - n - 1)

pub record PcapGlobalHeader : Type 0 where
  pub magic_number : ℕ
  pub version_major : ℕ
  pub version_minor : ℕ
  pub thiszone : ℤ
  pub sigfigs : ℕ
  pub snaplen : ℕ
  pub network : ℕ

abbrev pub global_header_size : ℕ
global_header_size = 24

abbrev pub global_header : Span → PcapGlobalHeader
global_header memory = record {
  magic_number = member memory 0 4;
  version_major = member memory 4 2;
  version_minor = member memory 6 2;
  thiszone = signed (member memory 8 4);
  sigfigs = member memory 12 4;
  snaplen = member memory 16 4;
  network = member memory 20 4;
}

pub record PcapRecordHeader : Type 0 where
  pub ts_sec : ℕ
  pub ts_usec : ℕ
  pub incl_len : ℕ
  pub orig_len : ℕ

abbrev pub record_header_size : ℕ
record_header_size = 16

abbrev pub record_header : Span → PcapRecordHeader
record_header memory = record {
  ts_sec = member memory 0 4;
  ts_usec = member memory 4 4;
  incl_len = member memory 8 4;
  orig_len = member memory 12 4;
}

-- `reverse_byte_order` of both headers, which throws.
abbrev pub reverse_byte_order {ℓ} : {A : Type ℓ} → A → Outcome A
reverse_byte_order header = fault

-- The header is not initialised, so one that the file does not have whole is undefined.
unfoldable pub read_global_header : File → Outcome ((PcapGlobalHeader × Bool) × File)
unfolding read
read_global_header file = do
  let (memory, file') = read file global_header_size
  check (length memory == global_header_size)
  let header = global_header memory
  let reverse = header.magic_number == 0xd4c3b2a1
  header' ← if reverse then reverse_byte_order header else ok header
  ok ((header', reverse), file')

-- The header is zero where the file has no bytes for it.
unfoldable pub read_record_header : File → Bool → Outcome (PcapRecordHeader × File)
unfolding read
read_record_header file reverse = do
  let (bytes, file') = read file record_header_size
  let header = record_header (bytes ++ drop (length bytes) (replicate record_header_size 0))
  header' ← if reverse then reverse_byte_order header else ok header
  ok (header', file')

-- The payload, the buffer after it, and the file. More bytes than the buffer has are written past its
-- end.
unfoldable pub read_packet_data : File → PcapRecordHeader → Span → Outcome (Span × Span × File)
unfolding read
read_packet_data file header buffer = do
  check (header.incl_len == header.orig_len)
  let (bytes, file') = read file header.incl_len
  check (leb (length bytes) (length buffer))
  let buffer' = bytes ++ drop (length bytes) buffer
  check (leb header.incl_len (length buffer))
  ok (take header.incl_len buffer', buffer', file')

-- `to_sys_time` and `to_time_t`: whole seconds.
abbrev pub to_time_t : ℕ → ℕ → ℕ
to_time_t s u = (s * 1000000 + u) / 1000000

-- `time_str` without the line's end, if it has one. `back` of an empty text is undefined.
unfoldable pub erase_newline : Span → Outcome Span
erase_newline [] = fault
erase_newline (c ∷ []) = ok (if c == b'\n' then [] else c ∷ [])
erase_newline (c ∷ d ∷ s) = do rest ← erase_newline (d ∷ s); ok (c ∷ rest)

-- The known ports of the prototype.
unfoldable pub neptun_structure : IpAddress → Span → Outcome Span
unfolding format_neptun_payload
neptun_structure source_ip payload =
    if source_ip.port == 7778 || source_ip.port == 7779
    then (format_neptun_payload (length payload) payload >>= λ text. elim text [
      | none ↦ fault
      | some s ↦ ok s
    ])
    else ok (codes "<not neptun packet>")

-- What is printed of a UDP packet.
unfoldable pub udp_line : ℕ → Span → IpAddress → IpAddress → ℕ → Span → Span
unfolding decimal to_string
udp_line record_index time_str source_ip destination_ip length structure =
    decimal 20 record_index []
    ++ (codes ": "
        ++ (time_str
            ++ (codes " UDP "
                ++ (to_string source_ip
                    ++ (codes " > "
                        ++ (to_string destination_ip
                            ++ (codes " length "
                                ++ (decimal 10 length []
                                    ++ (codes " neptun_payload=" ++ structure)))))))))

-- What is printed at the end.
unfoldable pub last_line : ℕ → Span
unfolding decimal
last_line count = codes "Processed " ++ (decimal 20 count [] ++ codes " records.")

-- `ctime` is the C library's: the text of a time, which ends in a line's end.
module _ (ctime : ℕ → Span) where
  unfoldable pub process_udp :
      PcapRecordHeader → Ipv4Header → UdpHeader → Span → ℕ → Outcome (List Span)
  unfolding from_u32 erase_newline neptun_structure udp_line
  process_udp header ip_header udp_header payload record_index = do
    let source_ip = from_u32 ip_header.source_ip udp_header.source_port
    let destination_ip = from_u32 ip_header.destination_ip udp_header.destination_port
    time_str ← erase_newline (ctime (to_time_t header.ts_sec header.ts_usec))
    structure ← neptun_structure source_ip payload
    ok (udp_line record_index time_str source_ip destination_ip udp_header.length structure ∷ [])

  unfoldable pub process_ip : PcapRecordHeader → Span → ℕ → Outcome (List Span)
  unfolding read_ipv4_header read_udp_header ipv4_size process_udp
  process_ip header payload record_index = do
    ip_header ← read_ipv4_header payload
    rest ← advance payload (ipv4_size ip_header)
    if not (ip_header.protocol == ip_protocol_udp) then ok [] else do
      udp_header ← read_udp_header rest
      rest' ← advance rest udp_size
      process_udp header ip_header udp_header rest' record_index

  -- The lines that a record is printed as: one, or none.
  unfoldable pub process_record : PcapRecordHeader → Span → ℕ → Outcome (List Span)
  unfolding read_ether_frame process_ip
  process_record header payload record_index = do
    ether_frame ← read_ether_frame payload
    rest ← advance payload ethernet_size
    if not (ether_frame.ether_type == ether_type_ipv4)
        then ok []
        else process_ip header rest record_index

  -- One round of the loop of `process_pcap_file`: the file, the buffer, the count and the lines after it.
  unfoldable pub process_round :
      Bool → File → Span → ℕ → List Span → Outcome (File × Span × ℕ × List Span)
  unfolding read_packet_data process_record
  process_round reverse file buffer count lines = do
    (header, file') ← read_record_header file reverse
    (payload, buffer', file'') ← read_packet_data file' header buffer
    if length payload == 0 then ok (file'', buffer', count, lines) else do
      printed ← process_record header payload (count + 1)
      ok (file'', buffer', count + 1, lines ++ printed)

  -- The loop, with `fuel` rounds at most: `none` says that they were not enough.
  unfoldable pub process_loop :
      ℕ → Bool → File → Span → ℕ → List Span → Outcome (Option (ℕ × List Span))
  unfolding process_round
  process_loop zero reverse file buffer count lines =
      ok (if file.eof then some (count, lines) else none)
  process_loop (suc fuel) reverse file buffer count lines = elim file.eof [
    | true ↦ ok (some (count, lines))
    | false ↦ process_round reverse file buffer count lines >>= λ r.
        process_loop fuel reverse r.0 r.1 r.2 r.3
  ]

  unfoldable pub process_pcap_file : ℕ → File → Outcome (Option (List Span))
  unfolding read_global_header process_loop last_line
  process_pcap_file fuel file = do
    ((header, reverse), file') ← read_global_header file
    result ← process_loop fuel reverse file' (replicate header.snaplen 0) 0 []
    ok (elim result [ none ↦ none | some r ↦ some (r.1 ++ (last_line r.0 ∷ [])) ])
