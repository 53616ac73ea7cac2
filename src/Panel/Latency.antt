-- ===== src/Panel/Latency.antt =====
-- The latencies in internal/panel/app.go and the texts that key them, and `clearLiveForNode`, which goes by
-- the same keys. The panel's maps are association lists.
pub mod Cleared
use frp_panel.Prelude.{
  Bool, true, false, ◌&&◌, ◌||◌, Option, none, some, List, [], ◌∷◌, ◌++◌, if◌then◌else◌,
}
use frp_panel.Prelude.Int.{ℤ, pos, ltb_ℤ, eqb_ℤ}
use frp_panel.Prelude.Text.{Bytes, bytes_eq, has_prefix}
use frp_panel.Prelude.Decimal.{decimal}
use frp_panel.Prelude.Assoc.{Assoc, Eq, lookup, insert, erase, int_eq}

-- "%d:%d"
unfoldable pub live_key : ℤ → ℤ → Bytes
live_key node port = decimal node ++ 58 ∷ decimal port

unfoldable pub node_prefix : ℤ → Bytes
node_prefix node = decimal node ++ 58 ∷ []

unfoldable pub without_prefix : {V : Type 0} → Bytes → Assoc Bytes V → Assoc Bytes V
without_prefix prefix [] = []
without_prefix prefix ((k, v) ∷ m) =
    let rest = without_prefix prefix m in if has_prefix prefix k then rest else (k, v) ∷ rest

unfoldable pub clear_live_for_node : ℤ → Assoc Bytes Bytes → Assoc Bytes Bytes
clear_live_for_node node live = without_prefix (node_prefix node) live

pub record Latencies : Type 0 where
  pub ctrl_lat : Assoc ℤ ℤ
  pub link_lat : Assoc Bytes ℤ

unfoldable pub set_ctrl_lat : ℤ → ℤ → Latencies → Latencies
set_ctrl_lat node ms l = record l { ctrl_lat = insert node ms l.ctrl_lat }

unfoldable pub set_link_lat : ℤ → ℤ → ℤ → Latencies → Latencies
set_link_lat node port ms l = record l { link_lat = insert (live_key node port) ms l.link_lat }

unfoldable pub clear_lat_for_node : ℤ → Latencies → Latencies
clear_lat_for_node node l = record {
  ctrl_lat = erase node l.ctrl_lat;
  link_lat = without_prefix (node_prefix node) l.link_lat;
}

-- a key that is missing
abbrev pub or_zero : Option ℤ → ℤ
or_zero none = pos 0
or_zero (some ms) = ms

unfoldable pub link_latency : ℤ → ℤ → Latencies → ℤ
link_latency node port l = or_zero (lookup (live_key node port) l.link_lat)

-- the loop over the latencies of the node's links
unfoldable pub best_of : Bytes → Assoc Bytes ℤ → ℤ → ℤ
best_of prefix [] best = best
best_of prefix ((k, v) ∷ m) best = best_of prefix m (
    if has_prefix prefix k && ltb_ℤ (pos 0) v && (eqb_ℤ best (pos 0) || ltb_ℤ v best)
    then v
    else best)

unfoldable pub node_latency : ℤ → Latencies → ℤ
node_latency node l =
    let best = best_of (node_prefix node) l.link_lat (pos 0) in
    if ltb_ℤ (pos 0) best then best else or_zero (lookup node l.ctrl_lat)
