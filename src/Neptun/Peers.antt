-- ===== src/Neptun/Peers.antt =====
-- The map of the peers: what `connect` and `send_reliable_to` do to one peer, and to the others.
pub mod Tests
use neptun.Common.{
  ℕ, ◌+◌, ◌++◌, arith, ◌≡◌, ◌≤◌, refl, ap, ◌∙◌, length, true, false, Option, none, some, ok,
}
use neptun.Io.{Span}
use neptun.IpAddress.{IpAddress, equal}
use neptun.IpMap.{find, find_or}
use neptun.IpMap.Laws.{find-insert, find-insert_other}
use neptun.Connection.{is_peer_connected}
use neptun.Connection.Handshake.{packet}
use neptun.Connection.Agreement.{written, write_handshake}
use neptun.Connection
use neptun.ReliableStream.{ReliableStream}
use neptun.ReliableStream.Invariant.{IsValid}
use neptun.ReliableStream.Sending.{Sent, send_lem}
use neptun.Neptun.{
  Neptun, Peer, new_peer, find_or_create_peer, set_peer, connect, is_connected, send_reliable_to,
}

-- The peer of an address, which is a new one if there was none.
abbrev pub peer_at : Neptun → IpAddress → ℕ → Peer
peer_at n ip now = find_or n.peers ip (new_peer n 0 now)

-- The peer that is found or created.
found_peer :
    (n : Neptun) (ip : IpAddress) (now : ℕ) (o : Option Peer)
    → find n.peers ip ≡ o
    → (find_or_create_peer 0 ip now n).0 ≡ peer_at n ip now
unfolding find_or_create_peer find_or
found_peer n ip now none e = rw (find_or_create_peer, find_or, e) refl
found_peer n ip now (some peer) e = rw (find_or_create_peer, find_or, e) refl

known_peer :
    (n : Neptun) (ip : IpAddress) (peer : Peer) (now : ℕ)
    → find n.peers ip ≡ some peer
    → find_or_create_peer 0 ip now n ≡ (peer, n)
unfolding find_or_create_peer
known_peer n ip peer now e = rw (find_or_create_peer, e) refl

-- The entries of other addresses stay as they are.
others_kept :
    (n : Neptun) (ip other : IpAddress) (now : ℕ) (o : Option Peer)
    → find n.peers ip ≡ o
    → equal other ip ≡ false
    → find (find_or_create_peer 0 ip now n).1.peers other ≡ find n.peers other
unfolding find_or_create_peer
others_kept n ip other now none e h =
    rw (find_or_create_peer, e) (find-insert_other n.peers ip other (new_peer n 0 now) h)
others_kept n ip other now (some peer) e h = rw (find_or_create_peer, e) refl

-- A new peer is not connected.
connected_as :
    (n : Neptun) (ip : IpAddress) (now : ℕ) (o : Option Peer)
    → find n.peers ip ≡ o
    → is_peer_connected (peer_at n ip now).connection_manager ≡ is_connected n ip
unfolding find_or is_connected Connection.init
connected_as n ip now none e = rw (is_connected, find_or, e) refl
connected_as n ip now (some peer) e = rw (is_connected, find_or, e) refl

connected_entry :
    (n : Neptun) (ip : IpAddress) (peer : Peer)
    → find n.peers ip ≡ some peer
    → is_connected n ip ≡ is_peer_connected peer.connection_manager
unfolding is_connected
connected_entry n ip peer e = rw (is_connected, e) refl

-- What `connect` makes of a peer: one handshake and the redundant ones are due, and the peer will not
-- answer the response.
abbrev pub greeting : Peer → Peer
greeting p = record p {
  connection_manager = record (p.connection_manager) {
    num_lets_connect_to_send = p.connection_manager.config.num_redundant_packets + 1;
    is_initiator = true;
  };
}

-- `connect` to an address whose handshake has not failed. The address has a peer then, a new one if there
-- was none, that has one handshake and the redundant ones to send and does not answer a response. What
-- its connection manager writes next, into ten bytes or more and under any packet id, is a handshake with
-- the limits that it was configured with, of which it reports nine bytes. `connect` makes nobody
-- connected and disconnects nobody, and leaves the peers of other addresses as they are.
pub connect_lem :
    (n : Neptun) (ip : IpAddress) (now : ℕ)
    → (peer_at n ip now).connection_manager.is_fail ≡ false
    → let peer = greeting (peer_at n ip now) in
      let c = peer.connection_manager in
      let n' = connect ip now n in
      (find n'.peers ip ≡ some peer)
      × ((id : ℕ) (buffer : Span)
          → 10 ≤ length buffer
          → (gap : ℕ) × (rest : Span) × (Connection.write c id buffer
              ≡ ok (packet c.config.limit gap ++ rest, 9, written c id))
            × (length rest + 10 ≡ length buffer))
      × (is_connected n' ip ≡ is_connected n ip)
      × ((other : IpAddress) → equal other ip ≡ false → find n'.peers other ≡ find n.peers other)
unfolding connect Connection.connect
connect_lem n ip now fresh =
    let (created, n') = find_or_create_peer 0 ip now n in
    let found = found_peer n ip now (find n.peers ip) refl in
    let entry : find (connect ip now n).peers ip ≡ some (greeting (peer_at n ip now)) =
      find-insert n'.peers ip (greeting created) ∙ ap (λ (p : Peer). some (greeting p)) found in
    (
      entry,
      λ id buffer h.
          write_handshake (greeting (peer_at n ip now)).connection_manager id buffer fresh
            (omega arith) h,
      connected_entry (connect ip now n) ip _ entry ∙ connected_as n ip now (find n.peers ip) refl,
      λ other h.
          find-insert_other n'.peers ip other _ h
          ∙ others_kept n ip other now (find n.peers ip) refl h,
    )

-- `send_reliable_to` an address whose peer is connected and has a valid stream, for any callback that
-- writes no more than the span it is given. It returns, the stream of this peer has the payload behind
-- the messages that it held, nothing else of the peer changes, and the peers of other addresses stay
-- as they are.
pub send_reliable_to_lem :
    (n : Neptun) (ip : IpAddress) (peer : Peer) (oldest now : ℕ) (w : Span → Span)
    → find n.peers ip ≡ some peer
    → is_peer_connected peer.connection_manager ≡ true
    → IsValid peer.reliable_stream oldest
    → ((free : Span) → length (w free) ≤ length free)
    → (n' : Neptun) × (s : ReliableStream) × (free : Span) × (send_reliable_to ip w now n ≡ ok n')
      × (find n'.peers ip ≡ some (record peer { reliable_stream = s }))
      × Sent peer.reliable_stream s oldest free (w free)
      × ((other : IpAddress) → equal other ip ≡ false → find n'.peers other ≡ find n.peers other)
unfolding send_reliable_to
send_reliable_to_lem n ip peer oldest now w there connected v within =
    let (s, free, run, sent) = send_lem peer.reliable_stream oldest w v within in
    let peer' : Peer = record peer { reliable_stream = s } in
    (
      set_peer n ip peer',
      s,
      free,
      rw (connected_entry n ip peer there, connected, known_peer n ip peer now there, run) refl,
      find-insert n.peers ip peer',
      sent,
      λ other h. find-insert_other n.peers ip other peer' h,
    )
