-- ===== src/FakeNetwork/Delivery.antt =====
-- What a socket reads of what another has sent.
use neptun.Common.{
  ℕ, zero, suc, ◌≡◌, refl, sym, ap, ◌∙◌, List, [], ◌∷◌, ◌++◌, append_assoc, append-nil, map, length,
  false, Option, some, Outcome, ok, ◌>>=◌,
}
use neptun.Io.{Span}
use neptun.IpAddress.{IpAddress}
use neptun.IpMap.{insert, find_or}
use neptun.Network.{FileDescriptor, ReadPacketInfo}
use neptun.FakeNetwork.{
  FakeNetwork, UdpPackets, find_ip, read_from_socket, send_to, count_read, no_stats, find_if,
  socket_predicate, address_of,
}
use neptun.FakeNetwork.Steps.{
  copied, length-copied, find_or-insert, queue, pending, info, read_step, sent, send_kept,
}

-- Calls of `send_to` for each payload, and `n` calls of `read_from_socket` into the same buffer.
abbrev pub send_all : FakeNetwork → FileDescriptor → IpAddress → List Span → Outcome FakeNetwork
send_all n fd ip [] = ok n
send_all n fd ip (payload ∷ payloads) = do
  (_, n') ← send_to n fd ip payload
  send_all n' fd ip payloads

abbrev pub read_all :
    ℕ → FakeNetwork → FileDescriptor → Span → Outcome (List (Option ReadPacketInfo) × FakeNetwork)
read_all zero n fd buffer = ok ([], n)
read_all (suc k) n fd buffer = do
  (result, buffer', n') ← read_from_socket n fd buffer
  (results, n'') ← read_all k n' fd buffer'
  ok (result ∷ results, n'')

send_all_lem :
    (n : FakeNetwork) (fd : FileDescriptor) (a b : IpAddress) (payloads : List Span)
    → find_ip n fd ≡ some a
    → n.should_drop_packets ≡ false
    → (n' : FakeNetwork) × (send_all n fd b payloads ≡ ok n')
      × (n'.bound ≡ n.bound)
      × (queue n' b ≡ queue n b ++ map (pending n.mtu a) payloads)
unfolding find_ip
send_all_lem n fd a b [] bound keeps = (n, refl, refl, sym (append-nil (queue n b)))
send_all_lem n fd a b (payload ∷ payloads) bound keeps =
    let n₁ : FakeNetwork = sent n a b payload in
    let (n', run, same, waits) = send_all_lem n₁ fd a b payloads bound keeps in
    (
      n',
      rw (send_kept n fd a b payload bound keeps) run,
      same,
      waits
          ∙ ap (λ (q : UdpPackets). q ++ map (pending n.mtu a) payloads)
              (find_or-insert n.buffers b (queue n b ++ (pending n.mtu a payload ∷ [])) [])
          ∙ append_assoc (queue n b) (pending n.mtu a payload ∷ [])
              (map (pending n.mtu a) payloads),
    )

read_all_lem :
    (n : FakeNetwork) (fd : FileDescriptor) (b : IpAddress) (packets rest : UdpPackets)
    (buffer : Span)
    → find_ip n fd ≡ some b
    → queue n b ≡ packets ++ rest
    → (n' : FakeNetwork) × (read_all (length packets) n fd buffer
        ≡ ok (map (λ packet. some (info (length buffer) packet)) packets, n'))
      × (queue n' b ≡ rest)
unfolding find_ip
read_all_lem n fd b [] rest buffer bound waiting = (n, refl, waiting)
read_all_lem n fd b (packet ∷ packets) rest buffer bound waiting =
    let step = read_step n fd b packet (packets ++ rest) buffer bound waiting in
    let buffer' = copied buffer packet.payload in
    let size : length buffer' ≡ length buffer = length-copied buffer packet.payload in
    let n₁ : FakeNetwork = record n {
      buffers = insert n.buffers b (packets ++ rest);
      stats_by_ip =
          insert n.stats_by_ip b (count_read (find_or n.stats_by_ip b no_stats) packet.payload);
    } in
    let (n', run, waits) =
      read_all_lem n₁ fd b packets rest buffer' bound
        (find_or-insert n.buffers b (packets ++ rest) []) in
    (n', rw (step, run, size) refl, waits)

length-map {ℓ κ} :
    {A : Type ℓ} {B : Type κ} (f : A → B) (xs : List A) → length (map f xs) ≡ length xs
length-map f [] = refl
length-map f (x ∷ xs) = ap suc (length-map f xs)

map-map {ℓ κ μ} :
    {A : Type ℓ} {B : Type κ} {C : Type μ} (f : A → B) (g : B → C) (xs : List A)
    → map g (map f xs) ≡ map (λ x. g (f x)) xs
map-map f g [] = refl
map-map f g (x ∷ xs) = ap (◌∷◌ (g (f x))) (map-map f g xs)

-- Payloads that one bound socket sends to the address of another, whose queue is empty, are read there
-- in the order in which they were sent, each with the sender's address and cut to the MTU and to the
-- reader's buffer. The network must not drop packets.
pub read_all-send_all :
    (n : FakeNetwork) (fd fd' : FileDescriptor) (a b : IpAddress) (payloads : List Span)
    (buffer : Span)
    → find_ip n fd ≡ some a
    → find_ip n fd' ≡ some b
    → n.should_drop_packets ≡ false
    → queue n b ≡ []
    → (n' n'' : FakeNetwork) × (send_all n fd b payloads ≡ ok n')
      × (read_all (length payloads) n' fd' buffer
          ≡ ok (map (λ p. some (info (length buffer) (pending n.mtu a p))) payloads, n''))
      × (queue n'' b ≡ [])
unfolding find_ip
read_all-send_all n fd fd' a b payloads buffer bound bound' keeps empty =
    let (n', run, same, waits) = send_all_lem n fd a b payloads bound keeps in
    let packets = map (pending n.mtu a) payloads in
    let waiting : queue n' b ≡ packets ++ [] =
      waits ∙ ap (λ (q : UdpPackets). q ++ packets) empty ∙ sym (append-nil packets) in
    let (n'', run', waits') =
      read_all_lem n' fd' b packets [] buffer
        (ap
            (λ (pairs : List (IpAddress × FileDescriptor)).
              address_of (find_if (socket_predicate fd') pairs))
            same
          ∙ bound')
        waiting in
    (
      n',
      n'',
      run,
      ap (λ (k : ℕ). read_all k n' fd' buffer) (sym (length-map (pending n.mtu a) payloads))
          ∙ run'
          ∙ ap (λ (results : List (Option ReadPacketInfo)). ok (results, n''))
              (map-map (pending n.mtu a) (λ packet. some (info (length buffer) packet)) payloads),
      waits',
    )
