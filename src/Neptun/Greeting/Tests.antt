-- ===== src/Neptun/Greeting/Tests.antt =====
-- The first packet of a peer that connects.
use neptun.Common.{◌≡◌, ◌++◌, refl, [], length, ok, fault, arith}
use neptun.Io.{Span}
use neptun.Connection.Handshake.{InFields}
use neptun.Neptun.{Peer}
use neptun.Neptun.Reading.{read_packet}
use neptun.Neptun.Writing.{write_packet}
use neptun.Neptun.Tests.{peer, limit, config, metrics, buffer}
use neptun.Neptun.Greeting.{IsGreeting, after_greeting, first_packet_cut}

limit-InFields : InFields limit
limit-InFields = record {
  read_rate = omega arith;
  read_size = omega arith;
  send_rate = omega arith;
  send_size = omega arith;
}

-- A peer that has a handshake to send, and messages.
abbrev pub answering : Peer
answering = record peer {
  connection_manager = record (peer.connection_manager) { num_lets_connect_to_send = 3 };
  unreliable_stream = record (peer.unreliable_stream) { pending_messages = [] };
}

-- The same without its messages.
abbrev greeting : Peer
greeting = record answering {
  reliable_stream = record (peer.reliable_stream) { pending_messages = [] };
}

pub answering-IsGreeting : IsGreeting answering
answering-IsGreeting = record {
  no_acks = refl;
  id_lt = omega arith;
  due = omega arith;
  not_failed = refl;
  in_fields = limit-InFields;
  no_unreliable = refl;
}

greeting-IsGreeting : IsGreeting greeting
greeting-IsGreeting = record {
  no_acks = refl;
  id_lt = omega arith;
  due = omega arith;
  not_failed = refl;
  in_fields = limit-InFields;
  no_unreliable = refl;
}

first_packet_cut_example :
    (sent left : Span) × (write_packet 9 greeting buffer
      ≡ ok (sent ++ left, length sent, after_greeting greeting 9 greeting.reliable_stream))
    × (length sent ≡ 21)
    × (read_packet config peer metrics sent ≡ fault)
first_packet_cut_example =
    first_packet_cut config greeting peer metrics 9 buffer greeting-IsGreeting refl (omega arith)
      (omega arith) (omega arith)
