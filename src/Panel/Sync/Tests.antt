-- ===== src/Panel/Sync/Tests.antt =====
-- Mapping 1 runs on node 1 and is switched off; node 2 has no row.
use frp_panel.Prelude.{◌≡◌, refl, true, false, none, some, [], ◌∷◌}
use frp_panel.Prelude.Int.{pos}
use frp_panel.Prelude.Text.{codes}
use frp_panel.Prelude.Assoc.{lookup, int_eq}
use frp_panel.Mappings.Store.{Mapping, Tables, set_mapping_enabled, has_version}
use frp_panel.Mappings.Handlers.{
  World, Request, toggle, serve, handle_toggle_mapping, toggle_found, finish,
}
use frp_panel.Frpc.Processes.{new_manager}
use frp_panel.Frpc.Processes.Tracked.{running_of, new_manager-IsTracked}
use frp_panel.Panel.Nodes.Table.{Node, get_node}
use frp_panel.Panel.Nodes.{Conn}
use frp_panel.Panel.Sync.{FrpcParams, Plane, Env, sync_all}
use frp_panel.Panel.Sync.Served.{IsConfigOf, serve-applied}

abbrev tokyo : Node
tokyo = record {
  id = pos 1;
  name = codes "tokyo";
  ip = codes "10.0.0.1";
  agent_port = pos 7600;
  agent_token = codes "token";
  fingerprint = codes "ab";
  frps_token = codes "t";
  frps_port = pos 7000;
  region = codes "overseas";
  last_commit_seq = pos 0;
}

abbrev linked : Conn
linked = record { serial = 0; node = tokyo; up = true; proto = 2 }

abbrev env : Env
env = record {
  nodes = tokyo ∷ [];
  conns = (pos 2, linked) ∷ (pos 1, linked) ∷ [];
  rate = pos 200;
  get_fails = λ id. false;
  query_fails = λ id. false;
  write_fails = λ id. none;
}

abbrev plane : Plane
plane = record { files = []; frpc = new_manager; pushed = [] }

abbrev web : Mapping
web = record {
  local_port = pos 8080;
  proto = "tcp";
  remark = "web";
  enabled = true;
  version = pos 1;
}

abbrev one_mapping : Tables
one_mapping = record {
  mappings = (pos 1, web) ∷ [];
  targets =
      record {
        mapping_id = pos 1;
        node_id = pos 1;
        remote_port = pos 9000;
        tunnel_status = "online";
      }
      ∷ [];
  next_id = pos 2;
}

abbrev world : World
world = record {
  listening = λ port proto. false;
  remotes = λ node. none;
  db_up = true;
  read_fails = false;
  write_fails = false;
}

abbrev switch_off : Request
switch_off = toggle (some (pos 1)) (some (false, pos 1))

serve-applied_example :
    (let q = serve (sync_all env) world switch_off one_mapping plane in
      ((f : FrpcParams) × (lookup (pos 1) q.1.files ≡ some f) × IsConfigOf (pos 1) tokyo q.0 f)
      × (running_of (pos 1) q.1.frpc.running ≡ 1))
unfolding lookup get_node serve handle_toggle_mapping toggle_found finish set_mapping_enabled
    has_version
serve-applied_example =
    serve-applied env world switch_off one_mapping plane (pos 1) tokyo new_manager-IsTracked refl
      (refl, refl, refl, refl) refl
