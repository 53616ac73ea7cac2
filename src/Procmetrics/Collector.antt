-- ===== src/Procmetrics/Collector.antt =====
-- internal/procmetrics/collector.go. What the files of /proc hold at a sample, and its time, are
-- arguments.
pub mod Counted
use frp_panel.Prelude.{Bool, true, false, ◌&&◌, Option, none, some, if◌then◌else◌}
use frp_panel.Prelude.Int.{ℤ, pos, ◌-64◌, ltb_ℤ}
use frp_panel.Prelude.Text.{Bytes}
use frp_panel.Procmetrics.Parse.{
  HostFloats, CpuTimes, NetCounters, read_cpu, read_net, read_mem, cpu_percent,
}

-- /proc/stat, /proc/meminfo, /proc/net/dev
pub record Proc : Type 0 where
  pub stat : Option Bytes
  pub meminfo : Option Bytes
  pub net_dev : Option Bytes

-- the counters of the network and the time at the last sample
pub record NetBase : Type 0 where
  pub prev_net : NetCounters
  pub prev_time : ℤ

-- `none` stands for the fields `haveCPU` and `haveNet` that are false.
pub record Collector : Type 0 where
  pub cpu : Option CpuTimes
  pub net : Option NetBase

abbrev pub new_collector : Collector
new_collector = record { cpu = none; net = none }

-- A counter below the last one was reset.
unfoldable pub rise : ℤ → ℤ → ℤ
rise cur prev = let d = cur -64 prev in if ltb_ℤ d (pos 0) then pos 0 else d

module _ (floats : HostFloats) where
  open floats use {Float, zero_float, of_ℤ, div_float, ltb_float, trunc_float, seconds}

  pub record Reading : Type 0 where
    pub cpu_pct : Float
    pub mem_pct : Float
    pub mem_total : ℤ
    pub rx_bps : ℤ
    pub tx_bps : ℤ
    pub rx_delta : ℤ
    pub tx_delta : ℤ
    pub primed : Bool

  abbrev cpu_part : Option CpuTimes → Option CpuTimes → Float × Bool
  cpu_part prev none = (zero_float, true)
  cpu_part none (some cur) = (zero_float, false)
  cpu_part (some prev) (some cur) = (cpu_percent floats prev cur, true)

  abbrev pub cpu_base : Option CpuTimes → Option CpuTimes → Option CpuTimes
  cpu_base prev none = prev
  cpu_base prev (some cur) = some cur

  abbrev per_second : ℤ → Float → ℤ
  per_second d secs =
      if ltb_float zero_float secs then trunc_float (div_float (of_ℤ d) secs) else pos 0

  unfoldable pub net_part : Option NetBase → NetCounters → ℤ → Reading → Reading
  net_part none net now r = record r { primed = false }
  net_part (some b) net now r =
      let secs = seconds now b.prev_time in
      let dr = rise net.rx_bytes b.prev_net.rx_bytes in
      let dt = rise net.tx_bytes b.prev_net.tx_bytes in
      record r {
        rx_bps = per_second dr secs;
        tx_bps = per_second dt secs;
        rx_delta = dr;
        tx_delta = dt;
      }

  unfoldable pub sample : Proc → ℤ → Collector → Collector × Reading
  sample p now c =
      let cur = read_cpu p.stat in
      let net = read_net p.net_dev in
      let (mem, total) = read_mem floats p.meminfo in
      let (pct, primed) = cpu_part c.cpu cur in
      (
        record {
          cpu = cpu_base c.cpu cur;
          net = some (record { prev_net = net; prev_time = now });
        },
        net_part c.net net now (record {
          cpu_pct = pct;
          mem_pct = mem;
          mem_total = total;
          rx_bps = pos 0;
          tx_bps = pos 0;
          rx_delta = pos 0;
          tx_delta = pos 0;
          primed = primed;
        }),
      )
