-- ===== src/Neptun/Misread/Tests.antt =====
-- A handshake with a message behind it.
use neptun.Common.{◌+◌, ◌-◌, ◌*◌, ◌/◌, ◌≡◌, ◌++◌, [], length, some, ok, arith}
use neptun.Io.{Span}
use neptun.ReliableStream.{ReliableStream}
use neptun.ReliableStream.Reading.{delivered}
use neptun.Neptun.{Peer}
use neptun.Neptun.Reading.{read_packet}
use neptun.Neptun.Writing.{write_packet}
use neptun.Neptun.Tests.{peer, limit, config, metrics, buffer, peer-IsReady}
use neptun.Neptun.Greeting.{after_greeting}
use neptun.Neptun.Greeting.Tests.{answering, answering-IsGreeting}
use neptun.Neptun.Misread.{IsAnswering, messages_behind, handshake_overwritten}

answering-IsAnswering : IsAnswering answering 0 buffer
answering-IsAnswering = record {
  greeting = answering-IsGreeting;
  valid = peer-IsReady.valid;
  oldest_lt = omega arith;
  small = omega arith;
  room = omega arith;
  top = omega arith;
  some_fit = omega arith;
}

handshake_overwritten_example :
    (sent left : Span) × (s : ReliableStream) × (q' : Peer) × (write_packet 9 answering buffer
      ≡ ok (sent ++ left, length sent, after_greeting answering 9 s))
    × (read_packet config peer metrics sent
        ≡ ok (
          q',
          metrics,
          record {
            reliable = delivered 0 (messages_behind answering (length buffer - 21));
            unreliable = [];
          },
        ))
    × (q'.connection_manager.peer_bandwidth_limit
        ≡ some (record limit { max_read_packet_size = 1400 / 256 * 256 + 3 }))
handshake_overwritten_example =
    handshake_overwritten config answering peer metrics 0 9 buffer answering-IsAnswering
      (omega arith) (omega arith) (omega arith)
