-- ===== src/Pcap/Datagram.antt =====
-- The headers of a captured datagram, read from their bytes.
use neptun.Common.{
  ℕ, ◌+◌, ◌-◌, ◌*◌, ◌/◌, ◌%◌, ◌^◌, ◌≤◌, ◌<◌, ◌≡◌, refl, ap, ◌∙◌, ◌++◌, arith, length, take, drop,
  true, ◌==◌, replicate, ok,
}
use neptun.Io.{Span, read_bits}
use neptun.Io.Encode.{big_endian, length-big_endian, big_endian-IsByte, value-big_endian}
use neptun.Io.BitFields.{read_bits_lem}
use neptun.Pcap.Headers.{Ipv4Header, read_ipv4_header}
use native.Mathlib.Nat.{mod-eq_of_lt}

-- The bits of a number of `k` bytes behind a prefix.
field :
    (w lo hi k v : ℕ) (before rest : Span) (lower upper : ℕ)
    → lower ≡ 8 * length before + lo
    → upper ≡ 8 * length before + hi
    → lo ≤ hi
    → hi ≤ 8 * k
    → hi - lo ≤ w
    → w ≤ 32
    → upper < 2 ^ w
    → v < 2 ^ (8 * k)
    → read_bits w lower upper (before ++ (big_endian k v ++ rest))
      ≡ ok (v / 2 ^ (8 * k - hi) % 2 ^ (hi - lo))
field w lo hi k v before rest lower upper e e' h inside room int_size index fits =
    let size = length-big_endian k v in
    read_bits_lem w lo hi before (big_endian k v) rest lower upper e e' h
      (omega (arith, size, inside)) room int_size index (big_endian-IsByte k v)
    ∙ ap (λ (n : ℕ). ok (n / 2 ^ (8 * length (big_endian k v) - hi) % 2 ^ (hi - lo)))
        (value-big_endian k v ∙ mod-eq_of_lt fits)
    ∙ ap (λ (n : ℕ). ok (v / 2 ^ (8 * n - hi) % 2 ^ (hi - lo))) size

-- The twenty bytes of a header without its options.
abbrev pub ipv4_bytes : Ipv4Header → Span
ipv4_bytes h =
    big_endian 1 (h.version * 2 ^ 4 + h.ihl)
    ++ (big_endian 1 (h.dscp * 2 ^ 2 + h.ecn)
        ++ (big_endian 2 h.total_length
            ++ (big_endian 2 h.identification
                ++ (big_endian 2 (h.flags * 2 ^ 13 + h.fragment_offset)
                    ++ (big_endian 1 h.time_to_live
                        ++ (big_endian 1 h.protocol
                            ++ (big_endian 2 h.header_checksum
                                ++ (big_endian 4 h.source_ip
                                    ++ big_endian 4 h.destination_ip))))))))

-- The members fit their bits.
pub record IsIpv4 (h : Ipv4Header) : Type 0 where
  pub version : h.version ≡ 4
  pub ihl : h.ihl < 2 ^ 4
  pub dscp : h.dscp < 2 ^ 6
  pub ecn : h.ecn < 2 ^ 2
  pub total_length : h.total_length < 2 ^ 16
  pub identification : h.identification < 2 ^ 16
  pub flags : h.flags < 2 ^ 3
  pub fragment_offset : h.fragment_offset < 2 ^ 13
  pub time_to_live : h.time_to_live < 2 ^ 8
  pub protocol : h.protocol < 2 ^ 8
  pub header_checksum : h.header_checksum < 2 ^ 16
  pub source_ip : h.source_ip < 2 ^ 32
  pub destination_ip : h.destination_ip < 2 ^ 32

module _ (h : Ipv4Header) (v : IsIpv4 h) (rest : Span) where
  abbrev bytes : Span
  bytes = ipv4_bytes h ++ rest

  version_field : read_bits 8 0 4 bytes ≡ ok h.version
  version_field =
      field 8 0 4 1 (h.version * 2 ^ 4 + h.ihl) (take 0 (ipv4_bytes h)) (drop 1 bytes) 0 4 refl refl
        (omega arith) (omega arith) (omega arith) (omega arith) (omega arith)
        (omega (arith, v.version, v.ihl))
      ∙ ap ok (omega (arith, v.version, v.ihl))

  ihl_field : read_bits 8 4 8 bytes ≡ ok h.ihl
  ihl_field =
      field 8 4 8 1 (h.version * 2 ^ 4 + h.ihl) (take 0 (ipv4_bytes h)) (drop 1 bytes) 4 8 refl refl
        (omega arith) (omega arith) (omega arith) (omega arith) (omega arith)
        (omega (arith, v.version, v.ihl))
      ∙ ap ok (omega (arith, v.version, v.ihl))

  dscp_field : read_bits 8 8 14 bytes ≡ ok h.dscp
  dscp_field =
      field 8 0 6 1 (h.dscp * 2 ^ 2 + h.ecn) (take 1 (ipv4_bytes h)) (drop 2 bytes) 8 14 refl refl
        (omega arith) (omega arith) (omega arith) (omega arith) (omega arith)
        (omega (arith, v.dscp, v.ecn))
      ∙ ap ok (omega (arith, v.dscp, v.ecn))

  ecn_field : read_bits 8 14 16 bytes ≡ ok h.ecn
  ecn_field =
      field 8 6 8 1 (h.dscp * 2 ^ 2 + h.ecn) (take 1 (ipv4_bytes h)) (drop 2 bytes) 14 16 refl refl
        (omega arith) (omega arith) (omega arith) (omega arith) (omega arith)
        (omega (arith, v.dscp, v.ecn))
      ∙ ap ok (omega (arith, v.dscp, v.ecn))

  total_length_field : read_bits 16 16 32 bytes ≡ ok h.total_length
  total_length_field =
      field 16 0 16 2 h.total_length (take 2 (ipv4_bytes h)) (drop 4 bytes) 16 32 refl refl
        (omega arith) (omega arith) (omega arith) (omega arith) (omega arith)
        (omega (arith, v.total_length))
      ∙ ap ok (omega (arith, v.total_length))

  identification_field : read_bits 16 32 48 bytes ≡ ok h.identification
  identification_field =
      field 16 0 16 2 h.identification (take 4 (ipv4_bytes h)) (drop 6 bytes) 32 48 refl refl
        (omega arith) (omega arith) (omega arith) (omega arith) (omega arith)
        (omega (arith, v.identification))
      ∙ ap ok (omega (arith, v.identification))

  flags_field : read_bits 8 48 51 bytes ≡ ok h.flags
  flags_field =
      field 8 0 3 2 (h.flags * 2 ^ 13 + h.fragment_offset) (take 6 (ipv4_bytes h)) (drop 8 bytes) 48
        51 refl refl (omega arith) (omega arith) (omega arith) (omega arith) (omega arith)
        (omega (arith, v.flags, v.fragment_offset))
      ∙ ap ok (omega (arith, v.flags, v.fragment_offset))

  fragment_offset_field : read_bits 16 51 64 bytes ≡ ok h.fragment_offset
  fragment_offset_field =
      field 16 3 16 2 (h.flags * 2 ^ 13 + h.fragment_offset) (take 6 (ipv4_bytes h)) (drop 8 bytes)
        51 64 refl refl (omega arith) (omega arith) (omega arith) (omega arith) (omega arith)
        (omega (arith, v.flags, v.fragment_offset))
      ∙ ap ok (omega (arith, v.flags, v.fragment_offset))

  time_to_live_field : read_bits 8 64 72 bytes ≡ ok h.time_to_live
  time_to_live_field =
      field 8 0 8 1 h.time_to_live (take 8 (ipv4_bytes h)) (drop 9 bytes) 64 72 refl refl
        (omega arith) (omega arith) (omega arith) (omega arith) (omega arith)
        (omega (arith, v.time_to_live))
      ∙ ap ok (omega (arith, v.time_to_live))

  protocol_field : read_bits 8 72 80 bytes ≡ ok h.protocol
  protocol_field =
      field 8 0 8 1 h.protocol (take 9 (ipv4_bytes h)) (drop 10 bytes) 72 80 refl refl (omega arith)
        (omega arith) (omega arith) (omega arith) (omega arith) (omega (arith, v.protocol))
      ∙ ap ok (omega (arith, v.protocol))

  header_checksum_field : read_bits 16 80 96 bytes ≡ ok h.header_checksum
  header_checksum_field =
      field 16 0 16 2 h.header_checksum (take 10 (ipv4_bytes h)) (drop 12 bytes) 80 96 refl refl
        (omega arith) (omega arith) (omega arith) (omega arith) (omega arith)
        (omega (arith, v.header_checksum))
      ∙ ap ok (omega (arith, v.header_checksum))

  source_ip_field : read_bits 32 96 128 bytes ≡ ok h.source_ip
  source_ip_field =
      field 32 0 32 4 h.source_ip (take 12 (ipv4_bytes h)) (drop 16 bytes) 96 128 refl refl
        (omega arith) (omega arith) (omega arith) (omega arith) (omega arith)
        (omega (arith, v.source_ip))
      ∙ ap ok (omega (arith, v.source_ip))

  destination_ip_field : read_bits 32 128 160 bytes ≡ ok h.destination_ip
  destination_ip_field =
      field 32 0 32 4 h.destination_ip (take 16 (ipv4_bytes h)) (drop 20 bytes) 128 160 refl refl
        (omega arith) (omega arith) (omega arith) (omega arith) (omega arith)
        (omega (arith, v.destination_ip))
      ∙ ap ok (omega (arith, v.destination_ip))

  -- A header of IPv4 whose members fit their bits is read back from its bytes, but for the options,
  -- which are not read.
  pub read_ipv4_header-bytes :
      read_ipv4_header (ipv4_bytes h ++ rest) ≡ ok (record h { options = replicate 36 0 })
  unfolding read_ipv4_header
  read_ipv4_header-bytes =
      let four : (h.version == 4) ≡ true = ground (arith, v.version) in
      rw
        (
          version_field, four, ihl_field, dscp_field, ecn_field, total_length_field,
          identification_field, flags_field, fragment_offset_field, time_to_live_field,
          protocol_field, header_checksum_field, source_ip_field, destination_ip_field,
        )
        refl
