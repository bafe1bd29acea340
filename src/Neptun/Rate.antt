-- ===== src/Neptun/Rate.antt =====
-- `set_send_rate`: the interval of a peer's ticker.
use neptun.Common.{
  ℕ, ◌/◌, ◌≤◌, ◌<◌, ◌≡◌, ◌⊎◌, refl, min, ◌==◌, some, none, ok, arith, Bool-cases, inl, inr,
}
use neptun.Common.Int.{pos}
use neptun.Connection.{ConnectionManagerConfig, BandwidthLimit}
use neptun.Neptun.{Peer, update_send_rate}
use neptun.Neptun.Reading.{send_rate, set_send_rate}
use neptun.Neptun.Delivery.{set_send_rate_lem}
use neptun.Ticker.{set_tick_interval, clear_tick_interval}
use native.Mathlib.Nat.{le-div_iff_mul-le}

-- The rate on both limits: 0, which is no limit, exactly if both have none, else the smaller of those
-- that are there.
send_rate_lem :
    (a b : ℕ)
    → ((a ≡ 0) × (send_rate a b ≡ b))
      ⊎ ((0 < a) × (b ≡ 0) × (send_rate a b ≡ a))
      ⊎ ((0 < a) × (0 < b) × (send_rate a b ≡ min a b))
unfolding send_rate
send_rate_lem a b = ground arith

-- The interval of a peer's ticker, once the peer's limits are known and both rates fit their byte. Without
-- a limit for the rate on either side `set_send_rate` clears the interval; else it sets the interval
-- to that of a positive rate within each limit that there is, and the interval is positive. Nothing is
-- said of packets that do not wait for the ticker.
pub set_send_rate-interval :
    (config : ConnectionManagerConfig) (p : Peer) (limit : BandwidthLimit)
    → p.connection_manager.peer_bandwidth_limit ≡ some limit
    → limit.max_read_packet_rate < 256
    → config.limit.max_send_packet_rate < 256
    → (q : Peer) × (set_send_rate config p ≡ ok q)
      × (((limit.max_read_packet_rate ≡ 0)
            × (config.limit.max_send_packet_rate ≡ 0)
            × (q.send_packet_ticker.tick_interval ≡ none))
          ⊎ ((rate : ℕ) × (q.send_packet_ticker.tick_interval ≡ some (pos (1000000000 / rate)))
              × (0 < rate)
              × (0 < 1000000000 / rate)
              × ((limit.max_read_packet_rate ≡ 0) ⊎ (rate ≤ limit.max_read_packet_rate))
              × ((config.limit.max_send_packet_rate ≡ 0)
                  ⊎ (rate ≤ config.limit.max_send_packet_rate))))
unfolding update_send_rate set_tick_interval clear_tick_interval
set_send_rate-interval config p limit known small small' =
    let a = limit.max_read_packet_rate in
    let b = config.limit.max_send_packet_rate in
    let rate = send_rate a b in
    let facts = send_rate_lem a b in
    let run = set_send_rate_lem config p limit known in
    elim (Bool-cases (rate == 0)) [
      | inl unlimited ↦ (
        update_send_rate p rate,
        run,
        inl (ground (arith, facts), ground (arith, facts), rw unlimited refl),
      )
      | inr limited ↦
          let positive : 0 < rate = ground (arith, limited) in
          (
            update_send_rate p rate,
            run,
            inr (
              rate,
              rw limited refl,
              positive,
              (le-div_iff_mul-le positive).1 (omega (arith, facts, small, small')),
              omega (arith, facts),
              omega (arith, facts),
            ),
          )
    ]
