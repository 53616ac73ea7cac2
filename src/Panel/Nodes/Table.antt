-- ===== src/Panel/Nodes/Table.antt =====
-- The table `nodes` and the statements on it in internal/panel/store.go, with the rows that `DeleteNode`
-- takes from other tables. Texts fit their columns; the times, the state and the versions of the
-- programs that a row also has are left out.
use frp_panel.Prelude.{Bool, ◌&&◌, Option, none, some, List, [], ◌∷◌, ◌++◌, if◌then◌else◌}
use frp_panel.Prelude.Int.{ℤ, pos, ◌+ℤ◌, eqb_ℤ}
use frp_panel.Prelude.Text.{Bytes, same_bytes}
use frp_panel.Mappings.Store.{MappingTarget, Tables}

-- `Node` of internal/panel/models.go
pub record Node : Type 0 where
  pub id : ℤ
  pub name : Bytes
  pub ip : Bytes
  pub agent_port : ℤ
  pub agent_token : Bytes
  pub fingerprint : Bytes
  pub frps_token : Bytes
  pub frps_port : ℤ
  pub region : Bytes
  pub last_commit_seq : ℤ

pub record NodeTable : Type 0 where
  pub rows : List Node
  pub next_id : ℤ

unfoldable pub get_node : ℤ → List Node → Option Node
get_node id [] = none
get_node id (n ∷ ns) = if eqb_ℤ n.id id then some n else get_node id ns

-- uq_nodes_ip_port
unfoldable pub same_address : Node → Node → Bool
same_address n m = same_bytes n.ip m.ip && eqb_ℤ n.agent_port m.agent_port

unfoldable pub at_address : Node → List Node → Option Node
at_address n [] = none
at_address n (m ∷ ms) = if same_address m n then some m else at_address n ms

-- ON DUPLICATE KEY UPDATE: what is new of a node that is there
unfoldable pub updated_from : Node → Node → Node
updated_from n old = record old {
  name = n.name;
  agent_token = n.agent_token;
  fingerprint = n.fingerprint;
  region = n.region;
  frps_port = n.frps_port;
}

unfoldable pub replace_node : Node → List Node → List Node
replace_node n [] = []
replace_node n (m ∷ ms) = (if eqb_ℤ m.id n.id then n else m) ∷ replace_node n ms

abbrev upsert : Node → Option Node → NodeTable → NodeTable × ℤ
upsert n none t = (
  record {
    rows = t.rows ++ record n { id = t.next_id; last_commit_seq = pos 0 } ∷ [];
    next_id = t.next_id +ℤ pos 1;
  },
  t.next_id,
)
upsert n (some old) t = (record t { rows = replace_node (updated_from n old) t.rows }, old.id)

unfoldable pub create_or_update_node : Node → NodeTable → NodeTable × ℤ
create_or_update_node n t = upsert n (at_address n t.rows) t

abbrev put_back : (Node → Node) → Option Node → List Node → List Node
put_back f none ns = ns
put_back f (some n) ns = replace_node (f n) ns

unfoldable pub update_node_frps : ℤ → Bytes → ℤ → List Node → List Node
update_node_frps id token port ns =
    put_back (λ n. record n { frps_token = token; frps_port = port }) (get_node id ns) ns

unfoldable pub update_node_meta : ℤ → Bytes → Bytes → List Node → List Node
update_node_meta id name region ns =
    put_back (λ n. record n { name = name; region = region }) (get_node id ns) ns

unfoldable pub delete_row : ℤ → List Node → List Node
delete_row id [] = []
delete_row id (n ∷ ns) = let rest = delete_row id ns in if eqb_ℤ n.id id then rest else n ∷ rest

-- DELETE FROM mapping_targets WHERE node_id=?
unfoldable pub delete_node_targets : ℤ → List MappingTarget → List MappingTarget
delete_node_targets id [] = []
delete_node_targets id (t ∷ ts) =
    let rest = delete_node_targets id ts in if eqb_ℤ t.node_id id then rest else t ∷ rest

-- the four DELETEs from the tables of metrics and traffic, of whose rows only the node counts
unfoldable pub delete_metrics : ℤ → List ℤ → List ℤ
delete_metrics id [] = []
delete_metrics id (n ∷ ns) =
    let rest = delete_metrics id ns in if eqb_ℤ n id then rest else n ∷ rest

-- what a transaction of `DeleteNode` works on
pub record Stored : Type 0 where
  pub nodes : NodeTable
  pub tables : Tables
  pub metrics : List ℤ

unfoldable pub delete_node : ℤ → Stored → Stored
delete_node id s = record {
  nodes = record (s.nodes) { rows = delete_row id s.nodes.rows };
  tables = record (s.tables) { targets = delete_node_targets id s.tables.targets };
  metrics = delete_metrics id s.metrics;
}
