-- ===== src/Panel/Nodes.antt =====
-- The manager of the nodes in internal/panel/nodemgr.go, with the handlers that change nodes in
-- Handlers. It ties together the tables, the connections, the
-- frpc processes, the pipeline and the live states. What an agent answers, and whether a statement or a
-- write of a file fails, are arguments. Calls do not overlap, but for those of `start` and `stop` in
-- Links. The logs, the messages to browsers and the limits of rates are left out.
pub mod Table
pub mod Links
pub mod Handlers
pub mod Deleted
mod Tests
use frp_panel.Prelude.{
  ℕ, suc, ◌==◌, Bool, true, false, not, ◌&&◌, ◌||◌, Option, none, some, List, [], ◌∷◌,
  if◌then◌else◌, ltb,
}
use frp_panel.Prelude.Int.{ℤ, pos}
use frp_panel.Prelude.Text.{Bytes, codes, same_bytes}
use frp_panel.Prelude.Assoc.{Assoc, lookup, insert, erase, int_eq}
use frp_panel.Metrics.Float.{Floats}
use frp_panel.Pipeline.State.{Pipeline, init_node, remove_node}
use frp_panel.Frpc.Processes.{Proc, Manager, cancel}
use frp_panel.Frpc.Processes
use frp_panel.Panel.Errors.{
  Code, bad_request, validation, node_offline, db_down, internal, app_error,
}
use frp_panel.Panel.Latency.{Latencies, clear_live_for_node, clear_lat_for_node}
use frp_panel.Panel.Nodes.Table.{
  Node, NodeTable, Stored, get_node, create_or_update_node, update_node_frps, update_node_meta,
  delete_node,
}

-- `NodeConn`: its number, its copy of the node, and `up` and `agentProto`
pub record Conn : Type 0 where
  pub serial : ℕ
  pub node : Node
  pub up : Bool
  pub proto : ℕ

-- `conns` with `cancels`, the calls of `Run` whose context is not cancelled, and the next number
pub record LinkState : Type 0 where
  pub conns : Assoc ℤ Conn
  pub running : List Proc
  pub next : ℕ

abbrev pub has_conn : Option Conn → Bool
has_conn none = false
has_conn (some c) = true

-- the part of `start` under the lock, and `go c.Run`
unfoldable pub start_link : Node → LinkState → LinkState
start_link node l = if has_conn (lookup node.id l.conns) then l else record {
  conns = insert node.id (record { serial = l.next; node = node; up = false; proto = 0 }) l.conns;
  running = (node.id, l.next) ∷ l.running;
  next = suc l.next;
}

abbrev stop_found : ℤ → Option Conn → LinkState → LinkState
stop_found id none l = l
stop_found id (some c) l = record l {
  conns = erase id l.conns;
  running = cancel (id, c.serial) l.running;
}

unfoldable pub stop_link : ℤ → LinkState → LinkState
stop_link id l = stop_found id (lookup id l.conns) l

-- How the surroundings behave during a request: the database, the writes of the configurations of
-- frpc, the check of an agent with its error, the agent's answer to a restart of frps (none if it does
-- not answer) and to an update.
pub record World : Type 0 where
  pub db_up : Bool
  pub write_fails : Bool
  pub proxies_fail : Bool
  pub config_fails : Bool
  pub verify_agent : Option Code
  pub restart_frps : Option Bool
  pub update_agent : Option Bool

module _ (F : Floats) where
  pub record App : Type 0 where
    pub stored : Stored
    pub links : LinkState
    pub frpc : Manager
    pub pipe : Pipeline F
    pub live : Assoc Bytes Bytes
    pub latencies : Latencies

  -- `EnsureNode`, whose error is passed over; it looks for a process once the file is written
  unfoldable pub ensure : World → ℤ → Manager → Manager
  ensure w id m = if w.config_fails then m else Processes.ensure_node id m

  -- what `start` does for a connection that is new
  unfoldable pub started : World → Node → App → App
  started w node a = record a {
    links = start_link node a.links;
    pipe = init_node F a.pipe node.id node.last_commit_seq;
    frpc =
        if same_bytes node.frps_token [] || w.proxies_fail then a.frpc else ensure w node.id a.frpc;
  }

  unfoldable pub start : World → Node → App → App
  start w node a = if has_conn (lookup node.id a.links.conns) then a else started w node a

  unfoldable pub stop : ℤ → App → App
  stop id a = record a { links = stop_link id a.links }

  unfoldable pub add : World → Node → App → App
  add w node a = start w node (stop node.id a)

  unfoldable pub start_each : World → List Node → App → App
  start_each w [] a = a
  start_each w (n ∷ ns) a = start_each w ns (start w n a)

  -- `fails` if the list of nodes cannot be loaded
  unfoldable pub try_start_all : World → Bool → App → App × Bool
  try_start_all w fails a = if fails then (a, false) else (start_each w a.stored.nodes.rows a, true)

  unfoldable pub remove : ℤ → App → App
  remove id a =
      let a' = stop id a in
      record a' {
        frpc = Processes.stop_node id a'.frpc;
        pipe = remove_node F a'.pipe id;
        live = clear_live_for_node id a'.live;
        latencies = clear_lat_for_node id a'.latencies;
      }

  unfoldable pub stop_each : Assoc ℤ Conn → App → App
  stop_each [] a = a
  stop_each ((id, c) ∷ cs) a = stop_each cs (stop id a)

  unfoldable pub stop_all : App → App
  stop_all a = let a' = stop_each a.links.conns a in record a' { frpc = Processes.stop_all a'.frpc }
