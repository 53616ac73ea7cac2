-- ===== src/Metrics/Minute.antt =====
-- `MinuteAgg`, `AggInput` and `MinuteOf` of internal/metrics/metrics.go. A sum of int64 wraps.
use frp_panel.Prelude.{ℕ, ◌+◌, ◌*◌, ◌/◌, ◌==◌, if◌then◌else◌}
use frp_panel.Prelude.Int.{ℤ, pos, negsuc, ◌+64◌, ltb_ℤ}
use frp_panel.Metrics.Float.{Floats}

pub record MinuteAgg (F : Floats) : Type 0 where
  pub minute_unix : ℤ
  pub count : ℕ
  pub sum_cpu : F.Float
  pub sum_mem : F.Float
  pub peak_rx_bps : ℤ
  pub peak_tx_bps : ℤ
  pub node_rx_bytes : ℤ
  pub node_tx_bytes : ℤ
  pub tun_in_bytes : ℤ
  pub tun_out_bytes : ℤ

pub record AggInput (F : Floats) : Type 0 where
  pub at_unix_ms : ℤ
  pub cpu : F.Float
  pub mem : F.Float
  pub net_rx_bps : ℤ
  pub net_tx_bps : ℤ
  pub node_rx_delta : ℤ
  pub node_tx_delta : ℤ
  pub tun_in_delta : ℤ
  pub tun_out_delta : ℤ

-- `Truncate` rounds down from the year 1 on, which is a whole number of minutes before 1970.
unfoldable pub minute_of : ℤ → ℤ
minute_of (pos n) = pos (n / 60000 * 60)
minute_of (negsuc n) = negsuc (n / 60000 * 60 + 59)

abbrev pub max_peak : ℤ → ℤ → ℤ
max_peak new peak = if ltb_ℤ peak new then new else peak

module _ (F : Floats) where
  -- &MinuteAgg{}
  unfoldable pub empty_agg : MinuteAgg F
  empty_agg = record {
    minute_unix = pos 0;
    count = 0;
    sum_cpu = F.zero_float;
    sum_mem = F.zero_float;
    peak_rx_bps = pos 0;
    peak_tx_bps = pos 0;
    node_rx_bytes = pos 0;
    node_tx_bytes = pos 0;
    tun_in_bytes = pos 0;
    tun_out_bytes = pos 0;
  }

  unfoldable pub add : MinuteAgg F → AggInput F → MinuteAgg F
  add a x = record {
    minute_unix = if a.count == 0 then minute_of x.at_unix_ms else a.minute_unix;
    count = a.count + 1;
    sum_cpu = F.add_float a.sum_cpu x.cpu;
    sum_mem = F.add_float a.sum_mem x.mem;
    peak_rx_bps = max_peak x.net_rx_bps a.peak_rx_bps;
    peak_tx_bps = max_peak x.net_tx_bps a.peak_tx_bps;
    node_rx_bytes = a.node_rx_bytes +64 x.node_rx_delta;
    node_tx_bytes = a.node_tx_bytes +64 x.node_tx_delta;
    tun_in_bytes = a.tun_in_bytes +64 x.tun_in_delta;
    tun_out_bytes = a.tun_out_bytes +64 x.tun_out_delta;
  }

  unfoldable pub avg_cpu : MinuteAgg F → F.Float
  avg_cpu a = if a.count == 0 then F.zero_float else F.div_float a.sum_cpu a.count

  unfoldable pub avg_mem : MinuteAgg F → F.Float
  avg_mem a = if a.count == 0 then F.zero_float else F.div_float a.sum_mem a.count
