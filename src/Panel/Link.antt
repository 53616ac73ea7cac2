-- ===== src/Panel/Link.antt =====
-- internal/panel/nodeconn.go: the replies to the requests of one connection, what a handshake teaches, and
-- the reconciliation, with `desiredProxies` of internal/panel/app.go and the query that it makes. The reply
-- to `list_proxies` is an argument.
pub mod Answered
pub mod Reconciled
pub mod Wanted
use Prim.Native.String.{String}
use frp_panel.Prelude.{
  ◌==◌, Bool, true, false, not, ◌&&◌, ◌||◌, Option, none, some, List, [], ◌∷◌, ◌++◌, if◌then◌else◌,
}
use frp_panel.Prelude.Int.{ℤ, pos, ltb_ℤ, leb_ℤ, eqb_ℤ}
use frp_panel.Prelude.Text.{Bytes, bytes_eq, codes, same_bytes}
use frp_panel.Prelude.Assoc.{Assoc, Eq, lookup, insert, erase, int_eq}
use frp_panel.Protocol.Message.{ProxyInfo, HelloAck, PortSpec, SetRateLimit}
use frp_panel.Protocol.Sign.{Envelope}
use frp_panel.Mappings.Store.{Tables, Mapping, MappingTarget}
use frp_panel.Frpcfg.Names.{proxy_name, parse_proxy_name}

-- `c.pending`: what the channel of each request holds, which has room for one reply
abbrev pub Pending : Type 0
Pending = Assoc Bytes (Option Envelope)

unfoldable pub store_request : Bytes → Pending → Pending
store_request id p = insert id none p

unfoldable pub end_request : Bytes → Pending → Pending
end_request id p = erase id p

-- a type that `handle` does not take for a reply
unfoldable pub is_push : Bytes → Bool
is_push typ =
    same_bytes typ (codes "pong")
    || same_bytes typ (codes "metrics")
    || same_bytes typ (codes "event")

abbrev pub fill : Option (Option Envelope) → Envelope → Pending → Pending
fill none env p = p
fill (some none) env p = insert env.id (some env) p
fill (some (some e)) env p = p

-- the part of `handle` that answers a request
unfoldable pub handle : Envelope → Pending → Pending
handle env p = if is_push env.typ || same_bytes env.id [] then p else fill (lookup env.id p) env p

-- `lastSeq` of the hello
unfoldable pub last_seq : ℤ → ℤ → ℤ
last_seq stored committed = if ltb_ℤ stored committed then committed else stored

pub record Learnt : Type 0 where
  pub frps_token : Bytes
  pub frps_port : ℤ
  pub changed : Bool

abbrev pub is_new_token : Bytes → Bytes → Bool
is_new_token token old = not (same_bytes token []) && not (same_bytes token old)

abbrev pub is_new_port : ℤ → ℤ → Bool
is_new_port port old = not (eqb_ℤ port (pos 0)) && not (eqb_ℤ port old)

unfoldable pub learn : HelloAck → Bytes → ℤ → Learnt
learn ack token port = record {
  frps_token = if is_new_token ack.frps_token token then ack.frps_token else token;
  frps_port = if is_new_port ack.frps_port port then ack.frps_port else port;
  changed = is_new_token ack.frps_token token || is_new_port ack.frps_port port;
}

pub record NodeProxyRow : Type 0 where
  pub mapping_id : ℤ
  pub node_id : ℤ
  pub local_port : ℤ
  pub proto : String
  pub remote_port : ℤ
  pub remark : String

abbrev join_row : MappingTarget → Option Mapping → List NodeProxyRow → List NodeProxyRow
join_row t none rows = rows
join_row t (some m) rows =
    if m.enabled
    then record {
      mapping_id = t.mapping_id;
      node_id = t.node_id;
      local_port = m.local_port;
      proto = m.proto;
      remote_port = t.remote_port;
      remark = m.remark;
    }
      ∷ rows
    else rows

unfoldable pub put_row : NodeProxyRow → List NodeProxyRow → List NodeProxyRow
put_row r [] = r ∷ []
put_row r (s ∷ ss) =
    let rest = put_row r ss in if leb_ℤ r.mapping_id s.mapping_id then r ∷ s ∷ ss else s ∷ rest

-- ORDER BY m.id
unfoldable pub by_mapping : List NodeProxyRow → List NodeProxyRow
by_mapping [] = []
by_mapping (r ∷ rs) = put_row r (by_mapping rs)

unfoldable pub joined : ℤ → Tables → List MappingTarget → List NodeProxyRow
joined node tables [] = []
joined node tables (t ∷ ts) =
    let rest = joined node tables ts in
    if eqb_ℤ t.node_id node then join_row t (lookup t.mapping_id tables.mappings) rest else rest

-- `Store.EnabledProxiesForNode`
unfoldable pub enabled_proxies_for_node : ℤ → Tables → List NodeProxyRow
enabled_proxies_for_node node tables = by_mapping (joined node tables tables.targets)

-- `Proxy` of internal/frpcfg/frpcfg.go; each LocalIP is 127.0.0.1
pub record Proxy : Type 0 where
  pub name : Bytes
  pub typ : String
  pub local_port : ℤ
  pub remote_port : ℤ
  pub comment : String

unfoldable pub proxy_of : NodeProxyRow → Proxy
proxy_of r = record {
  name = proxy_name r.mapping_id r.node_id;
  typ = r.proto;
  local_port = r.local_port;
  remote_port = r.remote_port;
  comment = r.remark;
}

unfoldable pub desired_proxies : List NodeProxyRow → List Proxy
desired_proxies [] = []
desired_proxies (r ∷ rs) = proxy_of r ∷ desired_proxies rs

-- the ports that `desiredProxies` returns beside the proxies
unfoldable pub port_specs : List NodeProxyRow → List PortSpec
port_specs [] = []
port_specs (r ∷ rs) = record { port = r.remote_port; proto = codes r.proto } ∷ port_specs rs

unfoldable pub has_name : Bytes → List Bytes → Bool
has_name n [] = false
has_name n (m ∷ ms) = same_bytes m n || has_name n ms

-- a set of names, each once
unfoldable pub put_name : Bytes → List Bytes → List Bytes
put_name n ns = if has_name n ns then ns else n ∷ ns

unfoldable pub desired_names : List Proxy → List Bytes
desired_names [] = []
desired_names (p ∷ ps) = put_name p.name (desired_names ps)

abbrev pub is_ours : Option (ℤ × ℤ) → Bool
is_ours none = false
is_ours (some (m, n)) = true

-- the names of the panel's form
unfoldable pub registered_names : List ProxyInfo → List Bytes
registered_names [] = []
registered_names (p ∷ ps) =
    let rest = registered_names ps in
    if is_ours (parse_proxy_name p.name) then put_name p.name rest else rest

-- the names that are not in the others
unfoldable pub not_in : List Bytes → List Bytes → List Bytes
not_in ns [] = []
not_in ns (m ∷ ms) = let rest = not_in ns ms in if has_name m ns then rest else m ∷ rest

pub record Reconciliation : Type 0 where
  -- the names that are logged as missing on frps, and those as left over
  pub missing : List Bytes
  pub extra : List Bytes
  -- what `EnsureNode` is called with
  pub ensured : List Proxy
  -- what `pushRateLimit` sends
  pub limit : SetRateLimit

abbrev pub registered_by : Option (List ProxyInfo) → List Bytes
registered_by none = []
registered_by (some ps) = registered_names ps

-- A request that fails counts as an empty list; `rate` is the limit on connections.
unfoldable pub reconcile : List Proxy → List PortSpec → ℤ → Option (List ProxyInfo) → Reconciliation
reconcile desired ports rate reply = record {
  missing = not_in (registered_by reply) (desired_names desired);
  extra = not_in (desired_names desired) (registered_by reply);
  ensured = desired;
  limit = record { rate = rate; ports = ports };
}
