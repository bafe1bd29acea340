-- ===== src/OsNetwork/Tests.antt =====
-- The theorems of OsNetwork at a system that holds the datagrams that have arrived.
use neptun.Common.{
  ℕ, ◌+◌, ◌%◌, ◌^◌, ◌<◌, ◌≤◌, ◌≡◌, ◌≢◌, ◌⊎◌, refl, List, [], ◌∷◌, ◌++◌, arith, length, take, drop,
  min, length-append, length-take, length-drop, true, none, some, ok, fault, ap,
}
use neptun.Io.{Span}
use neptun.IpAddress.{IpAddress}
use neptun.NetworkMetrics.{NetworkMetrics}
use neptun.Network.{FileDescriptor}
use neptun.OsNetwork.{Call, count, would_block, failed, Os, OsState, read_from_socket, send_to}
use neptun.OsNetwork.Calls.{Counts, IsSystem, read_from_socket_lem, os-send_to}

abbrev Inbox : Type 0
Inbox = List (IpAddress × Span)

abbrev nobody : IpAddress
nobody = record { ip_as_host_long = 0; port = 0 }

abbrev receive : Inbox → ℕ → Span → Call × IpAddress × Span × Inbox
receive [] fd buffer = (would_block, nobody, buffer, [])
receive ((sender, payload) ∷ inbox) fd buffer = (
  count (min (length payload) (length buffer)),
  sender,
  take (length buffer) payload ++ drop (length payload) buffer,
  inbox,
)

abbrev os : Os Inbox
os = record {
  socket = λ o. (some 3, o);
  bind = λ o fd ip. (true, o);
  fcntl = λ o fd. (true, o);
  close = λ o fd. (true, o);
  recvfrom = receive;
  sendto = λ o fd payload ip. (count (length payload), o);
}

abbrev number : Call → ℕ
number (count k) = k
number would_block = 0
number failed = 0

within :
    (o : Inbox) (fd n : ℕ) (buffer : Span) → (receive o fd buffer).0 ≡ count n → n ≤ length buffer
within [] fd n buffer h = cc
within ((sender, payload) ∷ o) fd n buffer h = omega (arith, ap number h)

same_size : (o : Inbox) (fd : ℕ) (buffer : Span) → length (receive o fd buffer).2 ≡ length buffer
same_size [] fd buffer = refl
same_size ((sender, payload) ∷ o) fd buffer = omega (
  arith,
  length-append (take (length buffer) payload) (drop (length payload) buffer),
  length-take (length buffer) payload,
  length-drop (length payload) buffer,
)

os-IsSystem : IsSystem os
os-IsSystem = record { within = within; same_size = same_size }

abbrev sender : IpAddress
sender = record { ip_as_host_long = 2130706433; port = 7 }

abbrev state : OsState Inbox
state = record {
  system = (sender, 5 ∷ 6 ∷ []) ∷ [];
  metrics = record { values = 1 ∷ 2 ∷ 3 ∷ 4 ∷ []; name = [] };
}

abbrev fd : FileDescriptor
fd = record { value = 3 }

abbrev buffer : Span
buffer = 0 ∷ 0 ∷ 0 ∷ []

read_from_socket_example :
    let n' : OsState Inbox = record state { system = [] } in
    let bytes : Span = 5 ∷ 6 ∷ 0 ∷ [] in
    ((count 2 ≡ failed) × (read_from_socket os state fd buffer ≡ fault))
    ⊎ ((((count 2 ≡ would_block) ⊎ (count 2 ≡ count 0))
          × (read_from_socket os state fd buffer ≡ ok (none, bytes, n')))
        ⊎ ((k : ℕ) × (m : NetworkMetrics) × (count 2 ≡ count k)
            × (0 < k)
            × (read_from_socket os state fd buffer
                ≡ ok (
                  some (record { sender = sender; payload = take k bytes }),
                  bytes,
                  record n' { metrics = m },
                ))
            × Counts m 1 ((2 + 1) % 2 ^ 64) ((3 + k) % 2 ^ 64) 4))
read_from_socket_example = read_from_socket_lem os state fd buffer 1 2 3 4 os-IsSystem refl

os-send_to_example :
    ((count 3 ≢ count 3) × (send_to os state fd sender buffer ≡ fault))
    ⊎ ((m : NetworkMetrics) × (count 3 ≡ count 3)
        × (send_to os state fd sender buffer ≡ ok (3, record state { metrics = m }))
        × Counts m ((1 + 1) % 2 ^ 64) 2 3 ((4 + 3) % 2 ^ 64))
os-send_to_example = os-send_to os state fd sender buffer 1 2 3 4 refl
