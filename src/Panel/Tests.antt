-- ===== src/Panel/Tests.antt =====
-- Two nodes, 1 and 12, a browser, and a reconciliation of node 1.
use frp_panel.Prelude.{
  ◌≡◌, refl, not, ◌&&◌, Option, none, some, List, [], ◌∷◌, map, if◌then◌else◌, arith,
}
use frp_panel.Prelude.Int.{pos, eqb_ℤ}
use frp_panel.Prelude.Text.{Bytes, bytes_eq, codes, same_bytes}
use frp_panel.Prelude.Assoc.{lookup}
use frp_panel.Protocol.Message.{ProxyInfo}
use frp_panel.Protocol.Sign.{Envelope}
use frp_panel.Frpcfg.Names.{parse_proxy_name}
use frp_panel.Panel.Latency.{Latencies, clear_lat_for_node, link_latency, node_latency}
use frp_panel.Panel.Latency.Cleared.{latency-clear}
use frp_panel.Panel.Hub.{BrowserClient}
use frp_panel.Panel.Hub.Bounded.{broadcast_all, marshalled, with_last, broadcast_all-keep_last}
use frp_panel.Panel.Link.{
  NodeProxyRow, desired_proxies, port_specs, reconcile, has_name, is_ours, store_request,
}
use frp_panel.Panel.Link.Answered.{handle_all, first_reply, request-first_reply}
use frp_panel.Panel.Link.Reconciled.{is_desired, is_registered, has_name-reconcile}

abbrev two_nodes : Latencies
two_nodes = record {
  ctrl_lat = (pos 1, pos 20) ∷ (pos 12, pos 30) ∷ [];
  link_lat = (codes "1:8000", pos 25) ∷ (codes "12:8000", pos 35) ∷ [];
}

latency-clear_example :
    (link_latency (pos 12) (pos 8000) (clear_lat_for_node (pos 1) two_nodes)
      ≡ (if eqb_ℤ (pos 1) (pos 12) then pos 0 else link_latency (pos 12) (pos 8000) two_nodes))
    × (node_latency (pos 12) (clear_lat_for_node (pos 1) two_nodes)
        ≡ (if eqb_ℤ (pos 1) (pos 12) then pos 0 else node_latency (pos 12) two_nodes))
latency-clear_example =
    latency-clear (pos 1) (pos 12) (pos 8000) two_nodes (omega arith) (omega arith)

abbrev browsers : List BrowserClient
browsers = record { conn = 1; send = [] } ∷ record { conn = 2; send = codes "init" ∷ [] } ∷ []

abbrev values : List (Option Bytes)
values = some (codes "a") ∷ none ∷ some (codes "b") ∷ []

broadcast_all-keep_last_example :
    broadcast_all values browsers ≡ map (with_last (marshalled values)) browsers
broadcast_all-keep_last_example = broadcast_all-keep_last values browsers (omega arith)

abbrev reply_to : Bytes → Envelope
reply_to id = record {
  ver = pos 2;
  typ = codes "proxy_list";
  id = id;
  ts = pos 0;
  nonce = [];
  payload = [];
  sig = [];
}

request-first_reply_example :
    lookup
      (codes "7")
      (handle_all (reply_to (codes "6") ∷ reply_to (codes "7") ∷ []) (store_request (codes "7") []))
    ≡ some (first_reply (codes "7") (reply_to (codes "6") ∷ reply_to (codes "7") ∷ []))
unfolding same_bytes
request-first_reply_example =
    request-first_reply (codes "7") (reply_to (codes "6") ∷ reply_to (codes "7") ∷ []) [] refl

-- mapping 1 on node 1
abbrev wanted_row : NodeProxyRow
wanted_row = record {
  mapping_id = pos 1;
  node_id = pos 1;
  local_port = pos 80;
  proto = "tcp";
  remote_port = pos 8000;
  remark = "";
}

abbrev left_over : ProxyInfo
left_over = record {
  name = codes "m2_n1";
  proto = "tcp";
  remote_port = pos 9000;
  status = "online";
  today_in = pos 0;
  today_out = pos 0;
}

has_name-reconcile_example :
    (let wanted = desired_proxies (wanted_row ∷ []) in
      let found =
        reconcile wanted (port_specs (wanted_row ∷ [])) (pos 50) (some (left_over ∷ [])) in
      (has_name (codes "m2_n1") found.missing ≡ (
        is_desired (codes "m2_n1") wanted && not (is_registered (codes "m2_n1") (left_over ∷ []))))
      × (has_name (codes "m2_n1") found.extra ≡ (
          is_ours (parse_proxy_name (codes "m2_n1"))
          && is_registered (codes "m2_n1") (left_over ∷ [])
          && not (is_desired (codes "m2_n1") wanted))))
has_name-reconcile_example =
    has_name-reconcile (codes "m2_n1") (wanted_row ∷ []) (pos 50) (left_over ∷ [])
      (omega arith, omega arith, tt)
