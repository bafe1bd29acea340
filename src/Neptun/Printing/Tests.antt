-- ===== src/Neptun/Printing/Tests.antt =====
-- The text of the packet of a concrete peer.
use neptun.Common.{◌≡◌, ◌++◌, [], length, some, ok, arith}
use neptun.Io.{Span}
use neptun.UnreliableStream.{UnreliableStream}
use neptun.Format.{format_neptun_payload, header_text}
use neptun.Format.Packets.{parts_text}
use neptun.Neptun.Writing.{write_packet}
use neptun.Neptun.Delivery.{after_write}
use neptun.Neptun.Tests.{peer, buffer, peer-IsReady}
use neptun.Neptun.Printing.{parts_sent, format_neptun_payload-write_packet}

format_neptun_payload-write_packet_example :
    (packet left : Span) × (u : UnreliableStream) × (write_packet 9 peer buffer
      ≡ ok (packet ++ left, length packet, after_write peer 9 buffer u))
    × (format_neptun_payload 2 packet
        ≡ ok (some (header_text 4 0 0 ++ parts_text [] (parts_sent peer buffer))))
format_neptun_payload-write_packet_example =
    format_neptun_payload-write_packet peer 0 9 2 buffer peer-IsReady (omega arith)
