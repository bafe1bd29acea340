-- ===== src/Neptun/Statuses.antt =====
-- What the statuses of packets do to a peer and to the metrics.
use neptun.Common.{
  ℕ, ◌+◌, ◌%◌, ◌^◌, ◌≡◌, refl, sym, ap, ap₂, ◌∙◌, [], ◌∷◌, ok, arith, >>=-eq-ok, ok-injective,
}
use neptun.Metrics.{
  NeptunMetrics, packet_acks, packet_drops, inc, inc_by, metric_key_index, NeptunMetricKey,
  neptun_metric_keys,
}
use neptun.Metrics
use neptun.PacketDelivery.{PacketDeliveryStatus, DeliveryStatuses, ack, drop}
use neptun.Connection.{on_packet_status_delivery}
use neptun.ReliableStream.{on_packet_delivery_status}
use neptun.Neptun.{Peer, key_of, process_status, process_delivery_statuses}

abbrev pub one_if_ack : PacketDeliveryStatus → ℕ
one_if_ack ack = 1
one_if_ack drop = 0

abbrev pub one_if_drop : PacketDeliveryStatus → ℕ
one_if_drop ack = 0
one_if_drop drop = 1

abbrev pub acks_in : DeliveryStatuses → ℕ
acks_in [] = 0
acks_in ((id, status) ∷ statuses) = one_if_ack status + acks_in statuses

abbrev pub drops_in : DeliveryStatuses → ℕ
drops_in [] = 0
drops_in ((id, status) ∷ statuses) = one_if_drop status + drops_in statuses

-- The counters are those of `a` acks and `d` drops.
abbrev pub Counts : NeptunMetrics → ℕ → ℕ → Type 0
Counts m a d = m.values ≡ a % 2 ^ 64 ∷ d % 2 ^ 64 ∷ []

-- One status that returns changes no more than the connection manager and the reliable stream, and is
-- counted.
process_status-ok :
    (id : ℕ) (status : PacketDeliveryStatus) (p p' : Peer) (m m' : NeptunMetrics)
    → process_status id status p m ≡ ok (p', m')
    → (inc m (key_of status) ≡ ok m')
      × (p'.send_packet_ticker ≡ p.send_packet_ticker)
      × (p'.packet_delivery_manager ≡ p.packet_delivery_manager)
      × (p'.unreliable_stream ≡ p.unreliable_stream)
unfolding process_status
process_status-ok id status p p' m m' h =
    let (manager, first, h₁) =
      >>=-eq-ok (on_packet_status_delivery p.connection_manager id status) _ h in
    let (stream, second, h₂) =
      >>=-eq-ok (on_packet_delivery_status p.reliable_stream id status) _ h₁ in
    let (metrics, third, h₃) = >>=-eq-ok (inc m (key_of status)) _ h₂ in
    let same = ok-injective h₃ in
    (
      third ∙ ap (λ (r : Peer × NeptunMetrics). ok r.1) same,
      ap (λ (r : Peer × NeptunMetrics). r.0.send_packet_ticker) (sym same),
      ap (λ (r : Peer × NeptunMetrics). r.0.packet_delivery_manager) (sym same),
      ap (λ (r : Peer × NeptunMetrics). r.0.unreliable_stream) (sym same),
    )

-- The counter of the status goes up by one.
inc_lem :
    (m m' : NeptunMetrics) (a d : ℕ) (status : PacketDeliveryStatus)
    → Counts m a d
    → inc m (key_of status) ≡ ok m'
    → Counts m' (a + one_if_ack status) (d + one_if_drop status)
unfolding inc inc_by Metrics.value Metrics.value_by_index
inc_lem m m' a d ack c h =
    let run : inc m packet_acks
        ≡ ok (record m { values = (a % 2 ^ 64 + 1) % 2 ^ 64 ∷ d % 2 ^ 64 ∷ [] }) =
      rw c refl in
    ap (λ (x : NeptunMetrics). x.values) (ok-injective (sym h ∙ run))
    ∙ ap₂ (λ (x y : ℕ). x ∷ y ∷ []) (omega arith) (omega arith)
inc_lem m m' a d drop c h =
    let run : inc m packet_drops
        ≡ ok (record m { values = a % 2 ^ 64 ∷ (d % 2 ^ 64 + 1) % 2 ^ 64 ∷ [] }) =
      rw c refl in
    ap (λ (x : NeptunMetrics). x.values) (ok-injective (sym h ∙ run))
    ∙ ap₂ (λ (x y : ℕ). x ∷ y ∷ []) (omega arith) (omega arith)

-- Statuses that are processed change no more of the peer than its connection manager and its reliable
-- stream. The metrics count each of them: with `a` acks and `d` drops before, those of the statuses are
-- added, modulo 2 ^ 64.
pub process_delivery_statuses_lem :
    (statuses : DeliveryStatuses) (p p' : Peer) (m m' : NeptunMetrics) (a d : ℕ)
    → Counts m a d
    → process_delivery_statuses statuses p m ≡ ok (p', m')
    → Counts m' (a + acks_in statuses) (d + drops_in statuses)
      × (p'.send_packet_ticker ≡ p.send_packet_ticker)
      × (p'.packet_delivery_manager ≡ p.packet_delivery_manager)
      × (p'.unreliable_stream ≡ p.unreliable_stream)
unfolding process_delivery_statuses
process_delivery_statuses_lem [] p p' m m' a d c h =
    let same : (p, m) ≡ (p', m') = ok-injective h in
    (
      ap (λ (r : Peer × NeptunMetrics). r.1.values) (sym same)
          ∙ c
          ∙ ap₂ (λ (x y : ℕ). x % 2 ^ 64 ∷ y % 2 ^ 64 ∷ []) (omega arith) (omega arith),
      ap (λ (r : Peer × NeptunMetrics). r.0.send_packet_ticker) (sym same),
      ap (λ (r : Peer × NeptunMetrics). r.0.packet_delivery_manager) (sym same),
      ap (λ (r : Peer × NeptunMetrics). r.0.unreliable_stream) (sym same),
    )
process_delivery_statuses_lem ((id, status) ∷ statuses) p p' m m' a d c h =
    let ((p₁, m₁), first, rest) = >>=-eq-ok (process_status id status p m) _ h in
    let (counted, ticker, manager, stream) = process_status-ok id status p p₁ m m₁ first in
    let (c', ticker', manager', stream') =
      process_delivery_statuses_lem statuses p₁ p' m₁ m' (a + one_if_ack status)
        (d + one_if_drop status) (inc_lem m m₁ a d status c counted) rest in
    (
      c' ∙ ap₂ (λ (x y : ℕ). x % 2 ^ 64 ∷ y % 2 ^ 64 ∷ []) (omega arith) (omega arith),
      ticker' ∙ ticker,
      manager' ∙ manager,
      stream' ∙ stream,
    )
