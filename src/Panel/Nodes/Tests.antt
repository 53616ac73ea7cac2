-- ===== src/Panel/Nodes/Tests.antt =====
-- A panel that is started with two nodes, and then loses one.
use frp_panel.Prelude.{refl, true, false, none, some, [], ◌∷◌}
use frp_panel.Prelude.Int.{pos}
use frp_panel.Prelude.Text.{codes}
use frp_panel.Metrics.Float.{Floats}
use frp_panel.Frpc.Processes.{new_manager}
use frp_panel.Frpc.Processes.Tracked.{new_manager-IsTracked}
use frp_panel.Panel.Nodes.Table.{Node}
use frp_panel.Panel.Nodes.{World, App, try_start_all}
use frp_panel.Panel.Nodes.Handlers.{handle_delete_node}
use frp_panel.Panel.Nodes.Links.{
  events, start_of, no_links, no_links-AllExact, EachOnce, try_start_all-once,
}
use frp_panel.Panel.Nodes.Deleted.{IsDeleted, handle_delete_node-torn_down}

abbrev no_floats : Floats
no_floats = record {
  Float = Unit {0};
  zero_float = tt;
  add_float = λ _ _. tt;
  div_float = λ _ _. tt;
}

abbrev tokyo : Node
tokyo = record {
  id = pos 1;
  name = codes "tokyo";
  ip = codes "10.0.0.1";
  agent_port = pos 7600;
  agent_token = codes "token";
  fingerprint = codes "ab";
  frps_token = [];
  frps_port = pos 7000;
  region = codes "overseas";
  last_commit_seq = pos 0;
}

abbrev paris : Node
paris = record tokyo { id = pos 2; name = codes "paris"; ip = codes "10.0.0.2" }

abbrev app : App no_floats
app = record {
  stored = record {
    nodes = record { rows = tokyo ∷ paris ∷ []; next_id = pos 3 };
    tables = record { mappings = []; targets = []; next_id = pos 1 };
    metrics = pos 1 ∷ pos 2 ∷ [];
  };
  links = no_links;
  frpc = new_manager;
  pipe = record { st = []; live = []; dropped_batches = 0 };
  live = [];
  latencies = record { ctrl_lat = []; link_lat = [] };
}

abbrev all_well : World
all_well = record {
  db_up = true;
  write_fails = false;
  proxies_fail = false;
  config_fails = false;
  verify_agent = none;
  restart_frps = some true;
  update_agent = some true;
}

-- Paris was added before the nodes were loaded.
abbrev one_started : App no_floats
one_started = record app { links = events (start_of paris ∷ []) no_links }

try_start_all-once_example :
    EachOnce no_floats
      (tokyo ∷ paris ∷ [])
      (try_start_all no_floats all_well false one_started).0.links
try_start_all-once_example =
    try_start_all-once no_floats all_well one_started (start_of paris ∷ []) refl

handle_delete_node-torn_down_example :
    IsDeleted no_floats
      (pos 1)
      app.stored
      (handle_delete_node no_floats all_well (some (pos 1)) app)
handle_delete_node-torn_down_example =
    handle_delete_node-torn_down no_floats all_well (pos 1) app new_manager-IsTracked
      no_links-AllExact refl
