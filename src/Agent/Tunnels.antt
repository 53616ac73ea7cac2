-- ===== src/Agent/Tunnels.antt =====
-- The counters of the tunnels in `sampleAndBroadcast` of internal/agent/server.go: from the totals of
-- the day that frps reports to what each tunnel carried since the last sample. A key stands for the
-- text "proto:port" of its parts.
pub mod Charged
pub mod Carried
mod Tests
use Prim.Native.String.{String}
use frp_panel.Prelude.{
  ◌==◌, Bool, true, false, ◌||◌, Option, none, some, List, [], ◌∷◌, if◌then◌else◌,
}
use frp_panel.Prelude.Int.{ℤ, pos, ◌-64◌, ltb_ℤ}
use frp_panel.Prelude.Assoc.{Assoc, Eq, lookup, insert, string_eq, int_eq, pair_eq}
use frp_panel.Protocol.Message.{ProxyInfo, ProxyTraffic}
use frp_panel.Agent.Wal.{ProxyDelta}

abbrev pub Key : Type 0
Key = String × ℤ

instance abbrev pub key_eq : Eq Key
key_eq = pair_eq

abbrev pub key_of : ProxyInfo → Key
key_of p = (p.proto, p.remote_port)

-- `tunPrev`
pub record Totals : Type 0 where
  pub total_in : ℤ
  pub total_out : ℤ

abbrev pub totals_of : ProxyInfo → Totals
totals_of p = record { total_in = p.today_in; total_out = p.today_out }

-- a key that is missing in the map
abbrev pub or_zero : Option Totals → Totals
or_zero none = record { total_in = pos 0; total_out = pos 0 }
or_zero (some t) = t

-- A total below the last one has started again from 0.
unfoldable pub delta : ℤ → ℤ → ℤ
delta today prev = let d = today -64 prev in if ltb_ℤ d (pos 0) then today else d

unfoldable pub report_of : ProxyInfo → Totals → ProxyTraffic
report_of p prev = record {
  remote_port = p.remote_port;
  proto = p.proto;
  status = p.status;
  delta_in = delta p.today_in prev.total_in;
  delta_out = delta p.today_out prev.total_out;
}

unfoldable pub wal_delta_of : ProxyInfo → Totals → ProxyDelta
wal_delta_of p prev = record {
  remote_port = p.remote_port;
  proto = p.proto;
  in_bytes = delta p.today_in prev.total_in;
  out_bytes = delta p.today_out prev.total_out;
  status = p.status;
}

pub record Measured : Type 0 where
  pub last_tun : Assoc Key Totals
  pub proxies : List ProxyTraffic
  pub wal_proxies : List ProxyDelta

-- the loop over the list of proxies
unfoldable pub measure : List ProxyInfo → Assoc Key Totals → Measured
measure [] last_tun = record { last_tun = last_tun; proxies = []; wal_proxies = [] }
measure (p ∷ ps) last_tun =
    let prev = or_zero (lookup (key_of p) last_tun) in
    let m = measure ps (insert (key_of p) (totals_of p) last_tun) in
    record {
      last_tun = m.last_tun;
      proxies = report_of p prev ∷ m.proxies;
      wal_proxies = wal_delta_of p prev ∷ m.wal_proxies;
    }

-- whether `seen` has the key
unfoldable pub is_seen : Key → List ProxyInfo → Bool
is_seen k [] = false
is_seen k (p ∷ ps) = key_eq.beq (key_of p) k || is_seen k ps

-- the loop that drops the counters of proxies that are not reported
unfoldable pub drop_unseen : List ProxyInfo → Assoc Key Totals → Assoc Key Totals
drop_unseen ps [] = []
drop_unseen ps ((k, t) ∷ m) =
    let rest = drop_unseen ps m in if is_seen k ps then (k, t) ∷ rest else rest

unfoldable pub sample_tunnels : List ProxyInfo → Assoc Key Totals → Measured
sample_tunnels ps last_tun =
    let m = measure ps last_tun in record m { last_tun = drop_unseen ps m.last_tun }
