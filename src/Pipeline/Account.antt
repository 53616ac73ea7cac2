-- ===== src/Pipeline/Account.antt =====
-- `Account` of internal/panel/pipeline.go, with `setLive` of internal/panel/app.go.
-- `time.Now` and the calendar of Asia/Shanghai are arguments.
use Prim.Native.String.{String}
use text.Mathlib.Text.{◌==◌ as str_eq}
use frp_panel.Prelude.{
  ◌+◌, ◌-◌, ◌/◌, Bool, true, false, ◌||◌, Option, none, some, List, [], ◌∷◌, if◌then◌else◌, ◌==◌,
}
use frp_panel.Prelude.Int.{ℤ, pos, negsuc, ◌+64◌, leb_ℤ, eqb_ℤ}
use frp_panel.Prelude.Assoc.{Assoc, lookup, insert, int_eq, pair_eq, string_eq}
use frp_panel.Metrics.Float.{Floats}
use frp_panel.Metrics.Ring.{Sample}
use frp_panel.Metrics.Ring
use frp_panel.Metrics.Seq.{SeqTracker, accept}
use frp_panel.Metrics.Minute
use frp_panel.Metrics.Minute.{AggInput}
use frp_panel.Protocol.Message.{Metrics, ProxyTraffic}
use frp_panel.Pipeline.State.{Pipeline, NodeState, DayTraffic, get}

-- a call of `onTunnelStatusChange`
pub record StatusChange : Type 0 where
  pub node : ℤ
  pub remote_port : ℤ
  pub proto : String
  pub status : String

abbrev pub Live : Type 0
Live = Assoc (ℤ × ℤ) String

-- the value of a missing key is ""
abbrev pub live_status : Live → ℤ → ℤ → String
live_status live node port = elim (lookup (node, port) live) [ none ↦ "" | some s ↦ s ]

-- The key of the source is the text "node:port".
unfoldable pub set_live : Live → ℤ → ℤ → String → Live × Bool
set_live live node port status =
    if str_eq (live_status live node port) status
    then (live, false)
    else (insert (node, port) status live, true)

pub record Tunnels : Type 0 where
  pub tun_in : ℤ
  pub tun_out : ℤ
  pub live : Live
  pub changes : List StatusChange

-- one turn of the loop over `m.Proxies`; the changes are in the order of the calls, newest first
unfoldable pub fold_proxy : ℤ → Tunnels → ProxyTraffic → Tunnels
fold_proxy node t px =
    let t' = record t { tun_in = t.tun_in +64 px.delta_in; tun_out = t.tun_out +64 px.delta_out } in
    if leb_ℤ px.remote_port (pos 0) || str_eq px.status ""
    then t'
    else let (live, changed) = set_live t.live node px.remote_port px.status in
      if changed
      then record t' {
        live = live;
        changes =
            record {
              node = node;
              remote_port = px.remote_port;
              proto = px.proto;
              status = px.status;
            }
            ∷ t.changes;
      }
      else t'

unfoldable pub fold_proxies : ℤ → Tunnels → List ProxyTraffic → Tunnels
fold_proxies node t [] = t
fold_proxies node t (px ∷ pxs) = fold_proxies node (fold_proxy node t px) pxs

unfoldable pub no_traffic : DayTraffic
no_traffic = record { node_rx = pos 0; node_tx = pos 0; tun_in = pos 0; tun_out = pos 0 }

unfoldable pub add_traffic : DayTraffic → DayTraffic → DayTraffic
add_traffic d x = record {
  node_rx = d.node_rx +64 x.node_rx;
  node_tx = d.node_tx +64 x.node_tx;
  tun_in = d.tun_in +64 x.tun_in;
  tun_out = d.tun_out +64 x.tun_out;
}

-- `s.traf[day] += x`, from zero where the day is new
unfoldable pub add_day : String → DayTraffic → Assoc String DayTraffic → Assoc String DayTraffic
unfolding no_traffic
add_day day x traf =
    let d : DayTraffic = elim (lookup day traf) [ none ↦ no_traffic | some d ↦ d ] in
    insert day (add_traffic d x) traf

-- Go's division of int64 by the positive constant 5 goes towards zero.
abbrev pub div5 : ℤ → ℤ
div5 (pos n) = pos (n / 5)
div5 (negsuc n) = if (n + 1) / 5 == 0 then pos 0 else negsuc ((n + 1) / 5 - 1)

module _ (F : Floats) (shanghai_day : ℤ → String) where
  pub record Accounted : Type 0 where
    pub pipe : Pipeline F
    -- the sample to broadcast, if it is new and no backfill
    pub sample : Option (Sample F)
    pub changes : List StatusChange

  -- the traffic that a report adds to its day
  unfoldable pub traffic_of : Metrics F → Tunnels → DayTraffic
  traffic_of m t = record {
    node_rx = m.net_rx_delta;
    node_tx = m.net_tx_delta;
    tun_in = t.tun_in;
    tun_out = t.tun_out;
  }

  unfoldable pub realtime_sample : Metrics F → ℤ → Tunnels → Sample F
  realtime_sample m at t = record {
    at_unix_ms = at;
    cpu = m.cpu;
    mem = m.mem;
    net_rx_bps = m.net_rx_bps;
    net_tx_bps = m.net_tx_bps;
    tun_in_bps = div5 t.tun_in;
    tun_out_bps = div5 t.tun_out;
  }

  agg_input : Metrics F → ℤ → Tunnels → AggInput F
  agg_input m at t = record {
    at_unix_ms = at;
    cpu = m.cpu;
    mem = m.mem;
    net_rx_bps = m.net_rx_bps;
    net_tx_bps = m.net_tx_bps;
    node_rx_delta = m.net_rx_delta;
    node_tx_delta = m.net_tx_delta;
    tun_in_delta = t.tun_in;
    tun_out_delta = t.tun_out;
  }

  unfoldable pub sample_time : ℤ → Metrics F → ℤ
  sample_time now_ms m = if eqb_ℤ m.sampled_at (pos 0) then now_ms else m.sampled_at

  unfoldable pub tunnels_of : Pipeline F → ℤ → Metrics F → Tunnels
  tunnels_of p node m =
      fold_proxies node (record { tun_in = pos 0; tun_out = pos 0; live = p.live; changes = [] })
        m.proxies

  -- the node's state after a new sample
  unfoldable pub fold_sample : NodeState F → SeqTracker → ℤ → Metrics F → Tunnels → NodeState F
  unfolding agg_input
  fold_sample s seq at m t = record s {
    seq = seq;
    traf = add_day (shanghai_day at) (traffic_of m t) s.traf;
    agg = Minute.add F s.agg (agg_input m at t);
    ring = if m.backfill then s.ring else Ring.add F s.ring (realtime_sample m at t);
  }

  unfoldable pub account : Pipeline F → ℤ → ℤ → Metrics F → Accounted
  account p now_ms node m =
      let s = get F p node in
      let (seq, is_new) = accept s.seq m.seq in
      if is_new
      then (let t = tunnels_of p node m in
          let at = sample_time now_ms m in
          record {
            pipe = record p { st = insert node (fold_sample s seq at m t) p.st; live = t.live };
            sample = if m.backfill then none else some (realtime_sample m at t);
            changes = t.changes;
          })
      else record { pipe = record p { st = insert node s p.st }; sample = none; changes = [] }
