-- ===== src/Mappings/Handlers/OwnPort.antt =====
-- The check of the ports of a mapping that runs.
use Prim.Native.String.{String}
use frp_panel.Prelude.{
  ◌≡◌, refl, ◌∙◌, ap, Bool, true, false, Option, none, some, List, [], ◌∷◌, ◌++◌, arith,
}
use frp_panel.Prelude.Int.{ℤ}
use frp_panel.Prelude.Text.{Bytes}
use frp_panel.Frpcfg.Names.{proxy_name}
use frp_panel.Panel.Errors
use frp_panel.Protocol.Message.{PortCheck, ProxyInfo}
use frp_panel.Agent.Commands.{check_port, busy, registered_on, answered}
use frp_panel.Mappings.Store.{TargetInput, Tables}
use frp_panel.Mappings.Validate.{
  MappingReq, port_busy, validate_mapping, check_enabled, check_occupied,
}
use frp_panel.Mappings.Handlers.{
  Remote, ask, available_at, code_of, fail, World, validated, update_checked, handle_update_mapping,
}

-- The agent calls a port busy that frps has a proxy on.
check_port-registered :
    (listening : Option Bytes) (proxies : List ProxyInfo × Bool) (pc : PortCheck) (name : Bytes)
    → registered_on pc.port (answered proxies) ≡ some name
    → (check_port listening proxies pc).available ≡ false
unfolding check_port busy
check_port-registered listening proxies pc name h = ground arith

available_at-registered :
    (remotes : ℤ → Option Remote) (h : Remote) (node port : ℤ) (proto : String) (name : Bytes)
    → remotes node ≡ some h
    → registered_on port (answered h.proxies) ≡ some name
    → available_at remotes node port proto ≡ some false
unfolding available_at ask
available_at-registered remotes h node port proto name e r =
    rw e (ap some (check_port-registered (h.local_listen port proto) h.proxies _ name r))

check_occupied-busy :
    (available : ℤ → ℤ → String → Option Bool) (proto : String) (before after : List TargetInput)
    (t : TargetInput)
    → available t.node_id t.remote_port proto ≡ some false
    → check_occupied available proto (before ++ t ∷ after) ≡ some port_busy
unfolding check_occupied
check_occupied-busy available proto [] after t h = rw (h, check_occupied) refl
check_occupied-busy available proto (u ∷ us) after t h =
    ground (arith, check_occupied-busy available proto us after t h)

abbrev pub nobody : ℤ → ℤ → String → Option Bool
nobody node port proto = none

validate-busy :
    (listening : ℤ → String → Bool) (available : ℤ → ℤ → String → Option Bool) (req : MappingReq)
    → req.enabled ≡ true
    → validate_mapping listening nobody req ≡ none
    → check_occupied available req.proto req.targets ≡ some port_busy
    → validate_mapping listening available req ≡ some port_busy
unfolding validate_mapping check_enabled
validate-busy listening available req on sound h = ground arith

module _ {S : Type 0} (sync_all : Tables → S → S) where
  -- A mapping that runs cannot be edited while it stays enabled: if frps on one of the nodes has the
  -- mapping's proxy on the port of its target, and the agent there answers, then an edit that keeps
  -- this target is refused as its port is busy, and changes nothing. The database is up, and apart
  -- from what the nodes say nothing is wrong with the request.
  pub update-own_port :
      (w : World) (id : ℤ) (req : MappingReq) (before after : List TargetInput) (t : TargetInput)
      (h : Remote) (db : Tables) (s : S)
      → w.db_up ≡ true
      → req.enabled ≡ true
      → validate_mapping w.listening nobody req ≡ none
      → req.targets ≡ before ++ t ∷ after
      → w.remotes t.node_id ≡ some h
      → registered_on t.remote_port (answered h.proxies) ≡ some (proxy_name id t.node_id)
      → handle_update_mapping sync_all w (some id) (some req) db s ≡ (db, s, fail Errors.port_busy)
  unfolding handle_update_mapping update_checked code_of validated
  update-own_port w id req before after t h db s up on sound split there running = refused (
      validate-busy w.listening (available_at w.remotes) req on sound (
        ap (check_occupied (available_at w.remotes) req.proto) split
        ∙ check_occupied-busy (available_at w.remotes) req.proto before after t (
            available_at-registered w.remotes h t.node_id t.remote_port req.proto
              (proxy_name id t.node_id) there running)))
    where
      refused :
          validate_mapping w.listening (available_at w.remotes) req ≡ some port_busy
          → handle_update_mapping sync_all w (some id) (some req) db s
            ≡ (db, s, fail Errors.port_busy)
      refused e = ground arith
