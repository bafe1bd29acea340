-- ===== src/Format/Tests.antt =====
-- The theorems of Format at concrete packets.
use neptun.Common.{
  List, [], ◌∷◌, ◌++◌, ◌≡◌, ◌≢◌, refl, none, some, ok, fault, arith, codes, replicate,
}
use neptun.Messages.PacketHeader
use neptun.Messages.Segment
use neptun.Messages.LetsConnect
use neptun.IpAddress.{to_decimal}
use neptun.Format.{
  to_hex, reliable_text, unreliable_text, segment_text, header_text, format_neptun_payload,
}
use neptun.Format.Ends.{format_neptun_payload-ne-none}
use neptun.Format.Packets.{
  Part, reliable, unreliable, parts_bytes, parts_text, format_neptun_payload-encoding,
  format_handshake_cut,
}

format_neptun_payload-ne-none_example : format_neptun_payload 14 (replicate 14 4) ≢ ok none
format_neptun_payload-ne-none_example =
    format_neptun_payload-ne-none 14 (replicate 14 4) (omega arith)

abbrev parts : List Part
parts = reliable ((5, 1 ∷ 255 ∷ []) ∷ (6, 16 ∷ []) ∷ []) ∷ unreliable ((9 ∷ []) ∷ []) ∷ []

format_neptun_payload-encoding_example :
    format_neptun_payload 2 (PacketHeader.encoding 7 0 0 ++ parts_bytes parts)
    ≡ ok (some (header_text 7 0 0 ++ parts_text [] parts))
format_neptun_payload-encoding_example =
    format_neptun_payload-encoding 2 7 0 0 parts (omega arith) (omega arith) (omega arith)
      (omega arith)
      (
        (
          omega arith,
          ((omega arith, omega arith, omega arith), ((omega arith, omega arith, omega arith), tt)),
        ),
        ((omega arith, ((omega arith, omega arith), tt)), tt),
      )

-- The text in full.
printed :
    header_text 7 0 0 ++ parts_text [] parts
    ≡ codes
        "[packet_id=7, ack_seq_num=0, ack_bitmask=0] [Reliable, msg_count=2][seq_num=5, length=2, payload=1 ff][seq_num=6, length=1, payload=10] [Unreliable, msg_count=1][length=1, payload=9]"
unfolding header_text reliable_text unreliable_text segment_text to_decimal to_hex
printed = refl

format_handshake_cut_example :
    format_neptun_payload 9 (
      PacketHeader.encoding 0 0 0
      ++ (Segment.encoding Segment.connection_manager 1 ++ (LetsConnect.k_id ∷ replicate 6 1)))
    ≡ fault
format_handshake_cut_example = format_handshake_cut 8 0 0 0 (replicate 6 1) (omega arith)
