-- ===== src/FakeNetwork/Sockets.antt =====
-- The bindings that sockets make, and what each call of `send_to` changes.
use neptun.Common.{
  ℕ, ◌+◌, ◌^◌, ◌<◌, ◌≡◌, refl, sym, ap, ◌∙◌, subst, List, [], ◌∷◌, ◌++◌, length, All, All-append,
  true, false, ltb, ◌==◌, if◌then◌else◌, none, some, ok, fault, arith, Bool-cases, inl, inr, ltb→lt,
  lt→ltb,
}
use neptun.Io.{Span}
use neptun.IpAddress.{IpAddress, to_string, equal}
use neptun.IpMap.{insert}
use neptun.Network.{FileDescriptor}
use neptun.UdpSocket.{UdpSocket}
use neptun.UdpSocket
use neptun.FakeNetwork.{
  FakeNetwork, find_ip, find_if, is_socket_open, is_socket_bound, bind, udp_socket_ipv4,
  socket_predicate, ip_address_or_socket_predicate, same_text, read_from_socket, send_from, send_to,
  stats, no_stats, count_sent, network, has_value, address_of,
}
use neptun.FakeNetwork.Binding.{All-find_if, find_if-weaker, first_fails, bind-ok, find_ip-bind}
use neptun.FakeNetwork.Steps.{
  queue, pending, send_step, send_kept, sent, find_or-insert, find_or-insert_other,
}

-- No two bindings share a socket or an address, and a later one is told from the earlier ones as
-- `bind` tells it.
abbrev pub Distinct : List (IpAddress × FileDescriptor) → Type 0
Distinct [] = Unit
Distinct (x ∷ xs) = All (λ y. ip_address_or_socket_predicate y.1 y.0 x ≡ false) xs × Distinct xs

-- Each socket that is bound was made by `udp_socket_ipv4`, and no two bindings clash.
abbrev pub IsWellBound : FakeNetwork → Type 0
IsWellBound n = All (λ x. x.1.value < n.next_fd) n.bound × Distinct n.bound

Distinct-append :
    (xs : List (IpAddress × FileDescriptor)) (y : IpAddress × FileDescriptor)
    → Distinct xs
    → All (λ x. ip_address_or_socket_predicate y.1 y.0 x ≡ false) xs
    → Distinct (xs ++ (y ∷ []))
Distinct-append [] y d h = (tt, tt)
Distinct-append (x ∷ xs) y d h =
    (All-append _ xs (y ∷ []) d.0 (h.0, tt), Distinct-append xs y d.1 h.1)

pub bind-IsWellBound :
    (n n' : FakeNetwork) (fd : FileDescriptor) (ip : IpAddress)
    → IsWellBound n
    → bind n fd ip ≡ ok n'
    → IsWellBound n'
unfolding is_socket_open
bind-IsWellBound n n' fd ip v h =
    let (opened, unused, same) = bind-ok n n' fd ip h in
    let entries = n.bound ++ ((ip, fd) ∷ []) in
    subst IsWellBound (sym same) (
      All-append _ n.bound ((ip, fd) ∷ []) v.0 (ltb→lt fd.value n.next_fd opened, tt),
      Distinct-append n.bound (ip, fd) v.1 (All-find_if _ n.bound unused),
    )

-- No entry has the number of the next socket.
fresh :
    (xs : List (IpAddress × FileDescriptor)) (k : ℕ) (ip : IpAddress)
    → All (λ x. x.1.value < k) xs
    → find_if (λ c. same_text (to_string ip) (to_string c.0)) xs ≡ none
    → find_if (ip_address_or_socket_predicate (record { value = k }) ip) xs ≡ none
unfolding find_if ip_address_or_socket_predicate
fresh [] k ip h e = refl
fresh (x ∷ xs) k ip h e =
    let (text, rest) = first_fails (λ c. same_text (to_string ip) (to_string c.0)) x xs e in
    let number : (k == x.1.value) ≡ false = ground (arith, h.0) in
    rw (text, number) (fresh xs k ip h.1 rest)

All-later :
    (xs : List (IpAddress × FileDescriptor)) (k : ℕ)
    → All (λ x. x.1.value < k) xs
    → All (λ x. x.1.value < k + 1) xs
All-later [] k h = tt
All-later (x ∷ xs) k h = (omega (arith, h.0), All-later xs k h.1)

-- `UdpSocket::bind` to an address that no socket has gives a socket with that address, as long as the
-- counter of sockets does not overflow, and the bindings stay free of clashes.
pub socket-bind :
    (n : FakeNetwork) (ip : IpAddress)
    → IsWellBound n
    → n.next_fd + 1 < 2 ^ 31
    → find_if (λ c. same_text (to_string ip) (to_string c.0)) n.bound ≡ none
    → (s : UdpSocket) × (n' : FakeNetwork) × (UdpSocket.bind network ip n ≡ ok (s, n'))
      × (find_ip n' s.fd ≡ some ip)
      × (find_ip n s.fd ≡ none)
      × IsWellBound n'
unfolding UdpSocket.bind udp_socket_ipv4 bind is_socket_open find_ip ip_address_or_socket_predicate
socket-bind n ip v small unused =
    let fd : FileDescriptor = record { value = n.next_fd } in
    let n₁ : FakeNetwork = record n { next_fd = n.next_fd + 1 } in
    let n₂ : FakeNetwork = record n₁ { bound = n.bound ++ ((ip, fd) ∷ []) } in
    let free = fresh n.bound n.next_fd ip v.0 unused in
    let counted : ltb (n.next_fd + 1) (2 ^ 31) ≡ true = lt→ltb (n.next_fd + 1) (2 ^ 31) small in
    let opened : ltb n.next_fd (n.next_fd + 1) ≡ true = ground arith in
    let made : bind n₁ fd ip ≡ ok n₂ = rw (opened, free) refl in
    let none_before : find_ip n fd ≡ none = ap address_of (
      find_if-weaker (socket_predicate fd) (λ c. same_text (to_string ip) (to_string c.0)) n.bound
        free) in
    (
      record { fd = fd; ip = ip },
      n₂,
      rw (counted, made) refl,
      find_ip-bind n₁ n₂ fd fd ip made ∙ ground arith,
      none_before,
      bind-IsWellBound n₁ n₂ fd ip (All-later n.bound n.next_fd v.0, v.1) made,
    )

-- A socket that is not bound can neither send nor read.
pub unbound :
    (n : FakeNetwork) (fd : FileDescriptor) (ip : IpAddress) (payload buffer : Span)
    → find_ip n fd ≡ none
    → (send_to n fd ip payload ≡ fault) × (read_from_socket n fd buffer ≡ fault)
unfolding is_socket_bound send_to read_from_socket
unbound n fd ip payload buffer h =
    let closed : is_socket_bound n fd ≡ false = ap has_value h in
    (rw (send_to, closed) refl, rw (read_from_socket, h) refl)

-- `send_to` of a bound socket reports the size of the payload and counts it for the sender. The packet
-- goes to the end of the receiver's queue, cut to the MTU, unless the network drops packets. Another
-- address keeps its queue and its counts.
pub send_to_lem :
    (n : FakeNetwork) (fd : FileDescriptor) (a b other : IpAddress) (payload : Span)
    → find_ip n fd ≡ some a
    → equal other a ≡ false
    → equal other b ≡ false
    → (n' : FakeNetwork) × (send_to n fd b payload ≡ ok (length payload, n'))
      × (queue n' b ≡ (
          if n.should_drop_packets then queue n b else queue n b ++ (pending n.mtu a payload ∷ [])))
      × (stats n' a ≡ count_sent (stats n a) payload)
      × (queue n' other ≡ queue n other)
      × (stats n' other ≡ stats n other)
unfolding send_from stats
send_to_lem n fd a b other payload bound x y =
    let counts = count_sent (stats n a) payload in
    let kept = find_or-insert n.stats_by_ip a counts no_stats in
    let others = find_or-insert_other n.stats_by_ip a other counts no_stats x in
    let packets = queue n b ++ (pending n.mtu a payload ∷ []) in
    elim (Bool-cases n.should_drop_packets) [
      | inl drops ↦ (
        record n { stats_by_ip = insert n.stats_by_ip a counts },
        rw (send_step n fd a b payload bound, drops) refl,
        rw drops refl,
        kept,
        refl,
        others,
      )
      | inr keeps ↦ (
        sent n a b payload,
        send_kept n fd a b payload bound keeps,
        rw keeps (find_or-insert n.buffers b packets []),
        kept,
        find_or-insert_other n.buffers b other packets [] y,
        others,
      )
    ]
