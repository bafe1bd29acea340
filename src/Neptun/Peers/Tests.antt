-- ===== src/Neptun/Peers/Tests.antt =====
-- The theorems about the map of the peers at an instance with one peer.
use neptun.Common.{
  ◌+◌, ◌++◌, ◌≡◌, ◌≤◌, ℕ, refl, [], ◌∷◌, length, take, length-take, false, some, ok, arith,
}
use neptun.Io.{Span}
use neptun.IpAddress.{IpAddress, equal}
use neptun.IpMap.{find, find_or}
use neptun.Connection
use neptun.Connection.Handshake.{packet}
use neptun.Connection.Agreement.{written}
use neptun.ReliableStream.{ReliableStream}
use neptun.ReliableStream.Sending.{Sent}
use neptun.Neptun.{Neptun, connect, is_connected, send_reliable_to}
use neptun.Neptun.Tests.{address, peer, server, there, peer-IsReady}
use neptun.Neptun.Peers.{peer_at, greeting, connect_lem, send_reliable_to_lem}

fresh : (peer_at server (address 9) 3).connection_manager.is_fail ≡ false
unfolding find_or find equal Connection.init
fresh = refl

-- A new peer.
connect_example :
    let peer = greeting (peer_at server (address 9) 3) in
    let c = peer.connection_manager in
    let n' = connect (address 9) 3 server in
    (find n'.peers (address 9) ≡ some peer)
    × ((id : ℕ) (buffer : Span)
        → 10 ≤ length buffer
        → (gap : ℕ) × (rest : Span) × (Connection.write c id buffer
            ≡ ok (packet c.config.limit gap ++ rest, 9, written c id))
          × (length rest + 10 ≡ length buffer))
    × (is_connected n' (address 9) ≡ is_connected server (address 9))
    × ((other : IpAddress)
        → equal other (address 9) ≡ false
        → find n'.peers other ≡ find server.peers other)
connect_example = connect_lem server (address 9) 3 fresh

-- The callback writes one byte, if there is room.
abbrev one_byte : Span → Span
one_byte free = take (length free) (7 ∷ [])

one_byte-within : (free : Span) → length (one_byte free) ≤ length free
one_byte-within free = omega (arith, length-take {A = ℕ} (length free) (7 ∷ []))

send_reliable_to_example :
    (n' : Neptun) × (s : ReliableStream) × (free : Span) × (send_reliable_to
        (address 7)
        one_byte
        3
        server
      ≡ ok n')
    × (find n'.peers (address 7) ≡ some (record peer { reliable_stream = s }))
    × Sent peer.reliable_stream s 0 free (one_byte free)
    × ((other : IpAddress)
        → equal other (address 7) ≡ false
        → find n'.peers other ≡ find server.peers other)
send_reliable_to_example =
    send_reliable_to_lem server (address 7) peer 0 3 one_byte there refl peer-IsReady.valid
      one_byte-within
