-- ===== src/FakeNetwork/Steps.antt =====
-- One call of `send_to` or of `read_from_socket`.
use neptun.Common.{
  ℕ, suc, ◌+◌, ◌-◌, min, ◌≡◌, refl, sym, ap, ◌∙◌, [], ◌∷◌, ◌++◌, append_assoc, append-nil, take,
  drop, length, get_elem?, true, false, ltb, leb, if◌then◌else◌, Option, none, some, ok, fault,
  arith, length-append, length-take, length-drop, take-append, drop-nil, get_elem?-append,
}
use neptun.Io.{Span, load, subspan}
use neptun.IpAddress.{IpAddress, equal}
use neptun.IpMap.{IpMap, insert, find_or}
use neptun.IpMap.Laws.{find-insert, find-insert_other}
use neptun.Network.{FileDescriptor, ReadPacketInfo}
use neptun.FakeNetwork.{
  FakeNetwork, PendingPacket, UdpPackets, copy_loop, find_ip, is_socket_bound, read_packets,
  read_from_socket, send_from, send_to, count_read, count_sent, no_stats, log_line, has_value,
}

-- The loop copies the bytes that fit.
copy_loop_from :
    (buffer before payload whole : Span) (idx : ℕ)
    → whole ≡ before ++ payload
    → idx ≡ length before
    → copy_loop buffer whole idx
      ≡ ok (
        take (length buffer) payload ++ drop (length payload) buffer,
        idx + min (length buffer) (length payload),
      )
unfolding copy_loop load
copy_loop_from [] before payload whole idx e k =
    rw drop-nil (ap (λ (n : ℕ). ok ([], n)) (omega arith))
copy_loop_from (b ∷ buffer) before [] whole idx e k =
    let size : length whole ≡ length before = ap length e ∙ ap length (append-nil before) in
    let done : leb (length whole) idx ≡ true = ground (arith, size, k) in
    rw done (ap (λ (n : ℕ). ok (b ∷ buffer, n)) (omega arith))
copy_loop_from (b ∷ buffer) before (x ∷ payload) whole idx e k =
    let size : length whole ≡ length before + suc (length payload) =
      ap length e ∙ length-append before (x ∷ payload) in
    let more : leb (length whole) idx ≡ false = ground (arith, size, k) in
    let found : get_elem? whole idx ≡ some x =
      ap (λ (w : Span). get_elem? w idx) e ∙ get_elem?-append before x payload idx k in
    let byte : load whole idx ≡ ok x =
      ap (λ (o : Option ℕ). elim o [ none ↦ fault | some y ↦ ok y ]) found in
    let split : whole ≡ (before ++ (x ∷ [])) ++ payload =
      e ∙ sym (append_assoc before (x ∷ []) payload) in
    let next : idx + 1 ≡ length (before ++ (x ∷ [])) =
      omega (arith, length-append before (x ∷ [])) in
    rw (more, byte, copy_loop_from buffer (before ++ (x ∷ [])) payload whole (idx + 1) split next)
      (ap (λ (n : ℕ). ok (x ∷ (take (length buffer) payload ++ drop (length payload) buffer), n))
        (omega arith))

copy_loop_lem :
    (buffer payload : Span)
    → copy_loop buffer payload 0
      ≡ ok (
        take (length buffer) payload ++ drop (length payload) buffer,
        min (length buffer) (length payload),
      )
copy_loop_lem buffer payload =
    copy_loop_from buffer [] payload payload 0 refl refl
    ∙ ap (λ (n : ℕ). ok (take (length buffer) payload ++ drop (length payload) buffer, n))
        (omega arith)

-- The buffer after the loop.
abbrev pub copied : Span → Span → Span
copied buffer payload = take (length buffer) payload ++ drop (length payload) buffer

pub length-copied : (buffer payload : Span) → length (copied buffer payload) ≡ length buffer
length-copied buffer payload = omega (
  arith,
  length-append (take (length buffer) payload) (drop (length payload) buffer),
  length-take (length buffer) payload,
  length-drop (length payload) buffer,
)

subspan-copied :
    (buffer payload : Span)
    → subspan (copied buffer payload) 0 (min (length buffer) (length payload))
      ≡ ok (take (length buffer) payload)
unfolding subspan
subspan-copied buffer payload =
    let front : take (min (length buffer) (length payload)) (copied buffer payload)
        ≡ take (length buffer) payload =
      take-append _ (take (length buffer) payload) _ (sym (length-take (length buffer) payload)) in
    let whole = length-copied buffer payload in
    let inside : ltb (length (copied buffer payload)) 0 ≡ false = ground arith in
    let enough : ltb (length (copied buffer payload) - 0) (min (length buffer) (length payload))
        ≡ false =
      ground (arith, whole) in
    rw (inside, enough, front) refl

-- The packets that wait for an address.
abbrev pub queue : FakeNetwork → IpAddress → UdpPackets
queue n ip = find_or n.buffers ip []

-- A payload as it is put into a queue.
abbrev pub pending : ℕ → IpAddress → Span → PendingPacket
pending mtu sender payload = record {
  sender = sender;
  payload = if ltb mtu (length payload) then take mtu payload else payload;
}

-- What a read into a buffer of `size` bytes gives of a packet.
abbrev pub info : ℕ → PendingPacket → ReadPacketInfo
info size packet = record { sender = packet.sender; payload = take size packet.payload }

pub find_or-insert {ℓ} :
    {A : Type ℓ} (m : IpMap A) (key : IpAddress) (a b : A) → find_or (insert m key a) key b ≡ a
unfolding find_or
find_or-insert m key a b = rw (find_or, find-insert m key a) refl

pub find_or-insert_other {ℓ} :
    {A : Type ℓ} (m : IpMap A) (key key' : IpAddress) (a b : A)
    → equal key' key ≡ false
    → find_or (insert m key a) key' b ≡ find_or m key' b
unfolding find_or
find_or-insert_other m key key' a b h = rw (find_or, find-insert_other m key key' a h) refl

-- The network after a read of the packet at the front.
abbrev pub popped : FakeNetwork → IpAddress → PendingPacket → UdpPackets → FakeNetwork
popped n b packet packets = record n {
  buffers = insert n.buffers b packets;
  stats_by_ip =
      insert n.stats_by_ip b (count_read (find_or n.stats_by_ip b no_stats) packet.payload);
}

pub read_step :
    (n : FakeNetwork) (fd : FileDescriptor) (b : IpAddress) (packet : PendingPacket)
    (packets : UdpPackets) (buffer : Span)
    → find_ip n fd ≡ some b
    → queue n b ≡ packet ∷ packets
    → read_from_socket n fd buffer
      ≡ ok (
        some (info (length buffer) packet),
        copied buffer packet.payload,
        popped n b packet packets,
      )
unfolding read_from_socket read_packets
read_step n fd b packet packets buffer bound waiting =
    rw
      (
        read_from_socket,
        bound,
        waiting,
        read_packets,
        copy_loop_lem buffer packet.payload,
        subspan-copied buffer packet.payload,
      )
      refl

pub send_step :
    (n : FakeNetwork) (fd : FileDescriptor) (a b : IpAddress) (payload : Span)
    → find_ip n fd ≡ some a
    → send_to n fd b payload ≡ ok (send_from n a b payload)
unfolding send_to is_socket_bound
send_step n fd a b payload bound =
    let live : is_socket_bound n fd ≡ true = ap has_value bound in rw (send_to, live, bound) refl

-- The network after `send_from`, if it does not drop packets.
abbrev pub sent : FakeNetwork → IpAddress → IpAddress → Span → FakeNetwork
sent n a b payload = record n {
  stats_by_ip = insert n.stats_by_ip a (count_sent (find_or n.stats_by_ip a no_stats) payload);
  buffers = insert n.buffers b (queue n b ++ (pending n.mtu a payload ∷ []));
  output = (if n.should_log_packets then log_line n a b payload ∷ [] else []) ++ n.output;
}

pub send_kept :
    (n : FakeNetwork) (fd : FileDescriptor) (a b : IpAddress) (payload : Span)
    → find_ip n fd ≡ some a
    → n.should_drop_packets ≡ false
    → send_to n fd b payload ≡ ok (length payload, sent n a b payload)
unfolding send_from
send_kept n fd a b payload bound keeps = rw (send_step n fd a b payload bound, keeps) refl
