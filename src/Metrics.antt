-- ===== src/Metrics.antt =====
-- common/metrics.h and neptun/neptun_metrics.h: counters by key. How they are printed is not modelled,
-- since it converts them to floating-point numbers.
use neptun.Common.{
  ℕ, ◌+◌, ◌%◌, ◌^◌, List, [], none, some, set, get_elem?, replicate, Outcome, ok, fault, ◌>>=◌,
  codes, ◌≡◌, refl,
}
use neptun.Io.{Span}

-- What `metric_key_count`, `metric_key_index`, `metric_key_name` and `metric_key_unit` are for a type of
-- keys.
pub record MetricKeys (Key : Type 0) : Type 0 where
  pub count : ℕ
  pub index : Key → ℕ
  pub key_name : Key → Span
  pub unit : Key → Span

-- The counters are unsigned numbers of 64 bits, one for each index.
pub record Metrics (Key : Type 0) : Type 0 where
  pub values : List ℕ
  pub name : Span

module _ {Key : Type 0} where
  unfoldable pub init : ⦃keys : MetricKeys Key⦄ → Span → Metrics Key
  init ⦃keys⦄ name = record { values = replicate keys.count 0; name = name }

  -- `m_values[index]`, which is undefined outside the array.
  unfoldable pub value_by_index : Metrics Key → ℕ → Outcome ℕ
  value_by_index m index = elim (get_elem? m.values index) [ none ↦ fault | some v ↦ ok v ]

  unfoldable pub value : ⦃keys : MetricKeys Key⦄ → Metrics Key → Key → Outcome ℕ
  unfolding value_by_index
  value ⦃keys⦄ m key = value_by_index m (keys.index key)

  unfoldable pub inc_by : ⦃keys : MetricKeys Key⦄ → Metrics Key → Key → ℕ → Outcome (Metrics Key)
  unfolding value
  inc_by ⦃keys⦄ m key amount = do
    old ← value m key
    ok (record m { values = set m.values (keys.index key) ((old + amount) % 2 ^ 64) })

  unfoldable pub inc : ⦃keys : MetricKeys Key⦄ → Metrics Key → Key → Outcome (Metrics Key)
  unfolding inc_by
  inc m key = inc_by m key 1

  pub inc_by_lem :
      ⦃keys : MetricKeys Key⦄ (m : Metrics Key) (key : Key) (amount old : ℕ)
      → get_elem? m.values (keys.index key) ≡ some old
      → inc_by m key amount
        ≡ ok (record m { values = set m.values (keys.index key) ((old + amount) % 2 ^ 64) })
  unfolding inc_by
  inc_by_lem m key amount old e = rw (inc_by, value, value_by_index, e) refl

pub data NeptunMetricKey : Type 0 where
  packet_acks : NeptunMetricKey
  packet_drops : NeptunMetricKey

abbrev pub metric_key_index : NeptunMetricKey → ℕ
metric_key_index packet_acks = 0
metric_key_index packet_drops = 1

abbrev pub metric_key_name : NeptunMetricKey → Span
metric_key_name packet_acks = codes "packet_acks"
metric_key_name packet_drops = codes "packet_drops"

instance abbrev pub neptun_metric_keys : MetricKeys NeptunMetricKey
neptun_metric_keys = record {
  count = 2;
  index = metric_key_index;
  key_name = metric_key_name;
  unit = λ key. [];
}

abbrev pub NeptunMetrics : Type 0
NeptunMetrics = Metrics NeptunMetricKey
