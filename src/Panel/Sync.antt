-- ===== src/Panel/Sync.antt =====
-- `SyncNode` and `SyncAll` of internal/panel/nodemgr.go with `EnsureNode` of internal/panel/frpcmgr.go:
-- the configurations of frpc after a change of the mappings. A configuration is what `RenderFrpc` is given
-- of the node and its mappings, not its text. Which statements and writes fail is an argument.
pub mod Rounds
pub mod Served
mod Tests
use frp_panel.Prelude.{Bool, true, false, Option, none, some, List, [], ◌∷◌, if◌then◌else◌}
use frp_panel.Prelude.Int.{ℤ}
use frp_panel.Prelude.Text.{Bytes}
use frp_panel.Prelude.Assoc.{Assoc, lookup, insert, erase, int_eq}
use frp_panel.Protocol.Message.{SetRateLimit}
use frp_panel.Mappings.Store.{Tables}
use frp_panel.Frpc.Processes.{Manager, ensure_node}
use frp_panel.Panel.Errors.{Code, not_found, app_error}
use frp_panel.Panel.Link.{
  Proxy, NodeProxyRow, enabled_proxies_for_node, desired_proxies, port_specs,
}
use frp_panel.Panel.Nodes.Table.{Node, get_node}
use frp_panel.Panel.Nodes.{Conn}

pub record FrpcParams : Type 0 where
  pub server_addr : Bytes
  pub server_port : ℤ
  pub token : Bytes
  pub proxies : List Proxy

unfoldable pub params_of : Node → List NodeProxyRow → FrpcParams
params_of node rows = record {
  server_addr = node.ip;
  server_port = node.frps_port;
  token = node.frps_token;
  proxies = desired_proxies rows;
}

-- the configurations that are written, the processes, and the limits that are sent to the agents
pub record Plane : Type 0 where
  pub files : Assoc ℤ FrpcParams
  pub frpc : Manager
  pub pushed : List (ℤ × SetRateLimit)

-- The rows of the nodes, the connections and the limit; which statements fail for a node, and what a
-- write that fails leaves of its file.
pub record Env : Type 0 where
  pub nodes : List Node
  pub conns : Assoc ℤ Conn
  pub rate : ℤ
  pub get_fails : ℤ → Bool
  pub query_fails : ℤ → Bool
  pub write_fails : ℤ → Option (Option FrpcParams)

abbrev left_of : ℤ → Option FrpcParams → Assoc ℤ FrpcParams → Assoc ℤ FrpcParams
left_of id none files = erase id files
left_of id (some partial) files = insert id partial files

-- `EnsureNode`, and whether it has no error
abbrev ensured : Node → List NodeProxyRow → Option (Option FrpcParams) → Plane → Plane × Bool
ensured node rows (some partial) p = (record p { files = left_of node.id partial p.files }, false)
ensured node rows none p = (
  record p {
    files = insert node.id (params_of node rows) p.files;
    frpc = ensure_node node.id p.frpc;
  },
  true,
)

-- `pushRateLimit`, where the node is connected
abbrev pushed_to : ℤ → ℤ → List NodeProxyRow → Option Conn → Plane → Plane
pushed_to id rate rows none p = p
pushed_to id rate rows (some c) p =
    if c.up
    then record p { pushed = (id, record { rate = rate; ports = port_specs rows }) ∷ p.pushed }
    else p

module _ (env : Env) where
  unfoldable pub apply_rows : ℤ → Node → List NodeProxyRow → Plane → Plane × Option Code
  apply_rows id node rows p =
      let (p', done) = ensured node rows (env.write_fails node.id) p in
      if done
      then (pushed_to id env.rate rows (lookup id env.conns) p', none)
      else (p', some (app_error none))

  unfoldable pub sync_found : Tables → ℤ → Option Node → Plane → Plane × Option Code
  sync_found db id none p = (p, some not_found)
  sync_found db id (some node) p =
      if env.query_fails id
      then (p, some (app_error none))
      else apply_rows id node (enabled_proxies_for_node id db) p

  unfoldable pub sync_node : Tables → ℤ → Plane → Plane × Option Code
  sync_node db id p =
      if env.get_fails id
      then (p, some (app_error none))
      else sync_found db id (get_node id env.nodes) p

  unfoldable pub sync_each : Tables → Assoc ℤ Conn → Plane → Plane
  sync_each db [] p = p
  sync_each db ((id, c) ∷ cs) p = sync_each db cs (sync_node db id p).0

  unfoldable pub sync_all : Tables → Plane → Plane
  sync_all db p = sync_each db env.conns p
