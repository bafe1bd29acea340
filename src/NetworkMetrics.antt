-- ===== src/NetworkMetrics.antt =====
-- network/network_metrics.h: the counters of the packets that go through the operating system.
use neptun.Common.{ℕ, codes, []}
use neptun.Io.{Span}
use neptun.Metrics.{Metrics, MetricKeys}

pub data NetworkMetricKey : Type 0 where
  packets_sent : NetworkMetricKey
  packets_read : NetworkMetricKey
  payload_ingress : NetworkMetricKey
  payload_egress : NetworkMetricKey

abbrev pub metric_key_index : NetworkMetricKey → ℕ
metric_key_index packets_sent = 0
metric_key_index packets_read = 1
metric_key_index payload_ingress = 2
metric_key_index payload_egress = 3

abbrev pub metric_key_name : NetworkMetricKey → Span
metric_key_name packets_sent = codes "packets_sent"
metric_key_name packets_read = codes "packets_read"
metric_key_name payload_ingress = codes "payload_ingress"
metric_key_name payload_egress = codes "payload_egress"

abbrev pub metric_key_unit : NetworkMetricKey → Span
metric_key_unit packets_sent = []
metric_key_unit packets_read = []
metric_key_unit payload_ingress = codes "MB"
metric_key_unit payload_egress = codes "MB"

instance abbrev pub network_metric_keys : MetricKeys NetworkMetricKey
network_metric_keys = record {
  count = 4;
  index = metric_key_index;
  key_name = metric_key_name;
  unit = metric_key_unit;
}

abbrev pub NetworkMetrics : Type 0
NetworkMetrics = Metrics NetworkMetricKey
