-- ===== src/Mappings/Handlers.antt =====
-- The handlers that change mappings, in internal/panel/handlers_mappings.go: create, update, delete and
-- toggle, with `mapMappingErr`, and `handlePortCheck`. What `SyncAll` does is a parameter. A statement
-- may fail for other reasons than the store's; the transaction is then rolled back. The logs are left out.
pub mod Settled
pub mod OwnPort
mod Tests
use Prim.Native.String.{String}
use frp_panel.Prelude.{
  ◌≡◌, Bool, true, false, not, ◌&&◌, ◌||◌, Option, none, some, List, [], ◌∷◌, if◌then◌else◌,
}
use frp_panel.Prelude.Int.{ℤ}
use frp_panel.Prelude.Text.{Bytes, codes}
use frp_panel.Prelude.Assoc.{lookup, int_eq}
use frp_panel.Ports.Policy.{PortError, reserved_reason}
use frp_panel.Protocol.Message.{PortCheck, PortCheckRes, ProxyInfo}
use frp_panel.Agent.Commands.{check_port}
use frp_panel.Panel.Errors.{
  Code, bad_request, validation, not_found, port_busy, conflict, reserved_port, node_offline,
  local_no_listen, db_down,
}
use frp_panel.Mappings.Store.{
  Mapping, TargetInput, Tables, StoreError, duplicate, optimistic_conflict, too_long, Outcome, done,
  failed, create_mapping, update_mapping, set_mapping_enabled, delete_mapping,
}
use frp_panel.Mappings.Validate.{
  MappingReq, MappingError, bad_local_port, reserved_remote_port, bad_remote_port, bad_proto,
  no_targets, duplicate_node, mapping_of, validate_mapping,
}
use frp_panel.Mappings.Validate

-- the host of an agent at the time of a check: the listener of a port, and the proxies of its frps
-- with whether they could not be had
pub record Remote : Type 0 where
  pub local_listen : ℤ → String → Option Bytes
  pub proxies : List ProxyInfo × Bool

-- `NodeManager.PortCheck`; none for a node that is not connected or does not answer, where each error
-- has the code of an offline node
unfoldable pub ask : Option Remote → ℤ → String → Option PortCheckRes
ask none port proto = none
ask (some h) port proto =
    some (
      check_port (h.local_listen port proto) h.proxies
        (record { port = port; proto = codes proto }))

abbrev is_available : Option PortCheckRes → Option Bool
is_available none = none
is_available (some res) = some res.available

-- what `validateMapping` learns of a port
unfoldable pub available_at : (ℤ → Option Remote) → ℤ → ℤ → String → Option Bool
available_at remotes node port proto = is_available (ask (remotes node) port proto)

unfoldable pub code_of : MappingError → Code
code_of (bad_local_port e) = validation
code_of (reserved_remote_port e) = reserved_port
code_of (bad_remote_port e) = validation
code_of bad_proto = validation
code_of no_targets = validation
code_of duplicate_node = validation
code_of Validate.local_no_listen = local_no_listen
code_of Validate.port_busy = port_busy

pub data Reply : Type 0 where
  fail : Code → Reply
  created : ℤ → Reply
  ok : Reply

-- the panel's own machine and the agents, and how the database behaves during a request
pub record World : Type 0 where
  pub listening : ℤ → String → Bool
  pub remotes : ℤ → Option Remote
  pub db_up : Bool
  pub read_fails : Bool
  pub write_fails : Bool

-- a number of the path, and a body; none where `pathID` or `decodeJSON` fails
pub data Request : Type 0 where
  create : Option MappingReq → Request
  update : Option ℤ → Option MappingReq → Request
  delete : Option ℤ → Request
  -- `enabled` and `version`
  toggle : Option ℤ → Option (Bool × ℤ) → Request

-- `mapMappingErr`, and the conflict that the handlers look for before it
unfoldable pub store_code : StoreError → Code
store_code duplicate = port_busy
store_code optimistic_conflict = conflict
store_code too_long = db_down

unfoldable pub validated : World → MappingReq → Option MappingError
validated w req = validate_mapping w.listening (available_at w.remotes) req

module _ {S : Type 0} (sync_all : Tables → S → S) where
  -- what follows a transaction: an error, or `SyncAll` and a reply
  unfoldable pub finish : {A : Type 0} → (A → Reply) → S → Tables × Outcome A → Tables × S × Reply
  finish reply s (db, failed e) = (db, s, fail (store_code e))
  finish reply s (db, done a) = (db, sync_all db s, reply a)

  unfoldable pub create_checked :
      World → MappingReq → Option MappingError → Tables → S → Tables × S × Reply
  create_checked w req (some e) db s = (db, s, fail (code_of e))
  create_checked w req none db s =
      if w.write_fails
      then (db, s, fail db_down)
      else finish created s (create_mapping db (mapping_of req) req.targets)

  unfoldable pub handle_create_mapping : World → Option MappingReq → Tables → S → Tables × S × Reply
  handle_create_mapping w none db s = (db, s, fail (if w.db_up then bad_request else db_down))
  handle_create_mapping w (some req) db s =
      if not w.db_up then (db, s, fail db_down) else create_checked w req (validated w req) db s

  unfoldable pub update_checked :
      World → ℤ → MappingReq → Option MappingError → Tables → S → Tables × S × Reply
  update_checked w id req (some e) db s = (db, s, fail (code_of e))
  update_checked w id req none db s =
      if w.write_fails
      then (db, s, fail db_down)
      else finish (λ _. ok) s (update_mapping db id req.version (mapping_of req) req.targets)

  unfoldable pub handle_update_mapping :
      World → Option ℤ → Option MappingReq → Tables → S → Tables × S × Reply
  handle_update_mapping w (some id) (some req) db s =
      if not w.db_up then (db, s, fail db_down) else update_checked w id req (validated w req) db s
  handle_update_mapping w _ _ db s = (db, s, fail (if w.db_up then bad_request else db_down))

  unfoldable pub handle_delete_mapping : World → Option ℤ → Tables → S → Tables × S × Reply
  handle_delete_mapping w none db s = (db, s, fail (if w.db_up then bad_request else db_down))
  handle_delete_mapping w (some id) db s =
      if not w.db_up || w.write_fails
      then (db, s, fail db_down)
      else finish (λ _. ok) s (delete_mapping db id, done tt)

  -- the mapping that `GetMapping` finds
  unfoldable pub toggle_found :
      World → ℤ → Bool → ℤ → Option Mapping → Tables → S → Tables × S × Reply
  toggle_found w id enabled version none db s = (db, s, fail not_found)
  toggle_found w id enabled version (some m) db s =
      if enabled && not (w.listening m.local_port m.proto)
      then (db, s, fail local_no_listen)
      else if w.write_fails
      then (db, s, fail db_down)
      else finish (λ _. ok) s (set_mapping_enabled db id version enabled)

  unfoldable pub handle_toggle_mapping :
      World → Option ℤ → Option (Bool × ℤ) → Tables → S → Tables × S × Reply
  handle_toggle_mapping w (some id) (some (enabled, version)) db s =
      if not w.db_up || w.read_fails
      then (db, s, fail db_down)
      else toggle_found w id enabled version (lookup id db.mappings) db s
  handle_toggle_mapping w _ _ db s = (db, s, fail (if w.db_up then bad_request else db_down))

  unfoldable pub serve : World → Request → Tables → S → Tables × S × Reply
  serve w (create body) db s = handle_create_mapping w body db s
  serve w (update id body) db s = handle_update_mapping w id body db s
  serve w (delete id) db s = handle_delete_mapping w id db s
  serve w (toggle id body) db s = handle_toggle_mapping w id body db s

pub data PortReply : Type 0 where
  bad : Code → PortReply
  reserved : PortError → PortReply
  checked : PortCheckRes → PortReply

-- A node that cannot be asked is taken to be offline.
unfoldable pub handle_port_check : (ℤ → Option Remote) → Option (ℤ × ℤ × String) → PortReply
handle_port_check remotes none = bad bad_request
handle_port_check remotes (some (node, port, proto)) = elim (reserved_reason port) [
  | some r ↦ reserved r
  | none ↦ elim (ask (remotes node) port proto) [ none ↦ bad node_offline | some res ↦ checked res ]
]
