-- ===== src/Mappings/Handlers/Tests.antt =====
-- Requests on a database with one mapping that runs.
use frp_panel.Prelude.{◌≡◌, refl, true, false, some, List, [], ◌∷◌}
use frp_panel.Prelude.Int.{pos}
use frp_panel.Prelude.Text.{codes}
use frp_panel.Frpcfg.Names.{proxy_name}
use frp_panel.Panel.Errors
use frp_panel.Protocol.Message.{ProxyInfo}
use frp_panel.Ports.Policy.{validate_port, validate_remote_port, reserved_reason}
use frp_panel.Agent.Commands.{registered_on}
use frp_panel.Mappings.Store.{Mapping, TargetInput, Tables}
use frp_panel.Mappings.Validate.{
  MappingReq, validate_mapping, check_targets, check_enabled, check_occupied, seen_in,
}
use frp_panel.Mappings.Handlers.{Remote, World, fail, create, serve, handle_update_mapping}
use frp_panel.Mappings.Handlers.Settled.{IsSettled, serve-IsSettled}
use frp_panel.Mappings.Handlers.OwnPort.{update-own_port}

-- every sync
abbrev noted : Tables → List Tables → List Tables
noted db log = db ∷ log

abbrev web : Mapping
web = record {
  local_port = pos 8080;
  proto = "tcp";
  remark = "web";
  enabled = true;
  version = pos 1;
}

abbrev target : TargetInput
target = record { node_id = pos 1; remote_port = pos 9000 }

-- mapping 1, from port 9000 of node 1
abbrev one_mapping : Tables
one_mapping = record {
  mappings = (pos 1, web) ∷ [];
  targets =
      record {
        mapping_id = pos 1;
        node_id = pos 1;
        remote_port = pos 9000;
        tunnel_status = "online";
      }
      ∷ [];
  next_id = pos 2;
}

abbrev edit : MappingReq
edit = record {
  local_port = pos 8080;
  proto = "tcp";
  remark = "a new remark";
  enabled = true;
  version = pos 1;
  targets = target ∷ [];
}

abbrev proxy : ProxyInfo
proxy = record {
  name = proxy_name (pos 1) (pos 1);
  proto = "tcp";
  remote_port = pos 9000;
  status = "online";
  today_in = pos 0;
  today_out = pos 0;
}

-- a node whose frps has the proxy of mapping 1
abbrev remote : Remote
remote = record { local_listen = λ port proto. some (codes "frps"); proxies = (proxy ∷ [], false) }

abbrev world : World
world = record {
  listening = λ port proto. true;
  remotes = λ node. some remote;
  db_up = true;
  read_fails = false;
  write_fails = false;
}

serve-IsSettled_example :
    IsSettled noted one_mapping [] (serve noted world (create (some edit)) one_mapping [])
serve-IsSettled_example = serve-IsSettled noted world (create (some edit)) one_mapping []

update-own_port_example :
    handle_update_mapping noted world (some (pos 1)) (some edit) one_mapping []
    ≡ (one_mapping, [], fail Errors.port_busy)
unfolding validate_mapping validate_port check_targets seen_in validate_remote_port reserved_reason
    check_enabled check_occupied registered_on proxy_name
update-own_port_example =
    update-own_port noted world (pos 1) edit [] [] target remote one_mapping [] refl refl refl refl
      refl refl
