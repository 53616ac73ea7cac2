-- ===== src/Panel/Nodes/Handlers.antt =====
-- The handlers of internal/panel/handlers_nodes.go that change nodes, with `RotateFrpsToken`, `UpdateMeta` and
-- `UpdateAgent` of internal/panel/nodemgr.go.
use frp_panel.Prelude.{Bool, true, false, not, Option, none, some, [], if◌then◌else◌, ltb}
use frp_panel.Prelude.Int.{ℤ, pos}
use frp_panel.Prelude.Text.{Bytes, codes, same_bytes}
use frp_panel.Prelude.Assoc.{lookup, insert, int_eq}
use frp_panel.Metrics.Float.{Floats}
use frp_panel.Frpc.Processes.{Proc, Manager, cancel}
use frp_panel.Frpc.Processes
use frp_panel.Panel.Errors.{Code, bad_request, validation, node_offline, db_down, internal}
use frp_panel.Panel.Nodes.Table.{
  Node, NodeTable, create_or_update_node, update_node_frps, update_node_meta, delete_node,
}
use frp_panel.Panel.Nodes.{Conn, LinkState, World, App, add, ensure, remove}

unfoldable pub set_node : ℤ → Node → Option Conn → LinkState → LinkState
set_node id node none l = l
set_node id node (some c) l = record l { conns = insert id (record c { node = node }) l.conns }

abbrev renamed : Bytes → Bytes → Node → Node
renamed name region n = record n { name = name; region = region }

-- `UpdateMeta`, for the connection that is found
unfoldable pub update_meta : ℤ → Bytes → Bytes → Option Conn → LinkState → LinkState
update_meta id name region none l = l
update_meta id name region (some c) l = set_node id (renamed name region c.node) (some c) l

pub data Reply : Type 0 where
  fail : Code → Reply
  created : ℤ → Reply
  ok : Reply

-- what `receipt.Decode` gives, without the version of the agent
pub record Receipt : Type 0 where
  pub ip : Bytes
  pub port : ℤ
  pub token : Bytes
  pub fp : Bytes
  pub frps_port : ℤ

-- the body of a request, with the receipt decoded
pub record CreateNode : Type 0 where
  pub name : Bytes
  pub region : Bytes
  pub receipt : Option Receipt

unfoldable pub new_node : CreateNode → Receipt → Node
new_node req rc = record {
  id = pos 0;
  name = req.name;
  ip = rc.ip;
  agent_port = rc.port;
  agent_token = rc.token;
  fingerprint = rc.fp;
  frps_token = [];
  frps_port = rc.frps_port;
  region = if same_bytes req.region [] then codes "overseas" else req.region;
  last_commit_seq = pos 0;
}

module _ (F : Floats) where
  -- the nodes after an INSERT, and the connection of the node
  unfoldable pub added : World → Node → NodeTable × ℤ → App F → App F × Reply
  added w node (t, id) a = (
    add F w (record node { id = id }) (record a { stored = record (a.stored) { nodes = t } }),
    created id,
  )

  unfoldable pub create_verified :
      World → CreateNode → Receipt → Option Code → App F → App F × Reply
  create_verified w req rc (some c) a = (a, fail c)
  create_verified w req rc none a =
      if w.write_fails
      then (a, fail db_down)
      else added w (new_node req rc) (create_or_update_node (new_node req rc) a.stored.nodes) a

  unfoldable pub create_decoded : World → CreateNode → Option Receipt → App F → App F × Reply
  create_decoded w req none a = (a, fail validation)
  create_decoded w req (some rc) a =
      if same_bytes req.name []
      then (a, fail validation)
      else create_verified w req rc w.verify_agent a

  -- `decodeJSON` gives none for a body that it rejects.
  unfoldable pub handle_create_node : World → Option CreateNode → App F → App F × Reply
  handle_create_node w none a = (a, fail (if w.db_up then bad_request else db_down))
  handle_create_node w (some req) a =
      if not w.db_up then (a, fail db_down) else create_decoded w req req.receipt a

  -- an id of the path, the new name and the new region
  unfoldable pub handle_update_node :
      World → Option ℤ → Option (Bytes × Bytes) → App F → App F × Reply
  handle_update_node w (some id) (some (name, region)) a =
      if not w.db_up
      then (a, fail db_down)
      else if same_bytes name []
      then (a, fail validation)
      else if w.write_fails
      then (a, fail db_down)
      else (
        record a {
          stored = record (a.stored) {
            nodes = record (a.stored.nodes) {
              rows = update_node_meta id name region a.stored.nodes.rows;
            };
          };
          links = update_meta id name region (lookup id a.links.conns) a.links;
        },
        ok,
      )
  handle_update_node w _ _ a = (a, fail (if w.db_up then bad_request else db_down))

  -- The node is torn down before its rows are deleted.
  unfoldable pub handle_delete_node : World → Option ℤ → App F → App F × Reply
  handle_delete_node w none a = (a, fail (if w.db_up then bad_request else db_down))
  handle_delete_node w (some id) a =
      if not w.db_up
      then (a, fail db_down)
      else let a' = remove F id a in
        if w.write_fails
        then (a', fail db_down)
        else (record a' { stored = delete_node id a'.stored }, ok)

  -- once the agent has restarted frps with the new token
  unfoldable pub rotated : World → ℤ → Bytes → Conn → App F → App F × Reply
  rotated w id token c a =
      if w.write_fails
      then (a, fail internal)
      else let a' = record a {
        stored = record (a.stored) {
          nodes = record (a.stored.nodes) {
            rows = update_node_frps id token c.node.frps_port a.stored.nodes.rows;
          };
        };
        links = set_node id (record (c.node) { frps_token = token }) (some c) a.links;
      } in
        if w.proxies_fail
        then (a', fail internal)
        else let a'' = record a' { frpc = ensure F w id (Processes.stop_node id a'.frpc) } in
          (a'', if w.config_fails then fail internal else ok)

  -- the answer to `restart_frps`
  unfoldable pub rotate_answered : World → ℤ → Bytes → Conn → Option Bool → App F → App F × Reply
  rotate_answered w id token c none a = (a, fail node_offline)
  rotate_answered w id token c (some false) a = (a, fail internal)
  rotate_answered w id token c (some true) a = rotated w id token c a

  unfoldable pub rotate_frps_token : World → ℤ → Bytes → Option Conn → App F → App F × Reply
  rotate_frps_token w id token none a = (a, fail node_offline)
  rotate_frps_token w id token (some c) a =
      if c.up then rotate_answered w id token c w.restart_frps a else (a, fail node_offline)

  unfoldable pub handle_rotate_token : World → Option ℤ → Bytes → App F → App F × Reply
  handle_rotate_token w none token a = (a, fail bad_request)
  handle_rotate_token w (some id) token a = rotate_frps_token w id token (lookup id a.links.conns) a

  -- what `UpdateAgent` answers; it changes nothing here
  unfoldable pub update_agent : World → Option Conn → Reply
  update_agent w none = fail node_offline
  update_agent w (some c) =
      if not c.up
      then fail node_offline
      else if ltb c.proto 2
      then fail validation
      else elim w.update_agent [
        | none ↦ fail node_offline
        | some taken ↦ if taken then ok else fail internal
      ]
