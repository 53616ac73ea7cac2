-- ===== src/Agent/Commands.antt =====
-- `dispatch` and `checkPort` of internal/agent/server.go: what the agent answers to a command of the
-- panel. What frps, systemctl, nft and ufw answer is an argument, and so is the decoding of JSON.
pub mod PortChecked
pub mod Updates
use Prim.Native.String.{String}
use frp_panel.Prelude.{
  ◌==◌, ◌≡◌, Bool, true, false, not, ◌&&◌, ◌||◌, Option, none, some, List, [], ◌∷◌, ◌++◌,
  if◌then◌else◌,
}
use frp_panel.Prelude.Int.{ℤ, eqb_ℤ}
use frp_panel.Prelude.Text.{Bytes, codes, has_prefix, same_bytes}
use frp_panel.Ports.Policy.{PortError, reserved_reason}
use frp_panel.Protocol.Message.{
  PortCheck, PortCheckRes, BusyReason, Occupant, ProxyInfo, RestartFrps, SetRateLimit, UpdateAgent,
  UpdateRes, UpdateError,
}
use frp_panel.Agent.Frps.{RawProxy, RestartError, proxies, rotate_token, bin_version}
use frp_panel.Agent.Firewall.{LimitError, apply_rate_limit}
use frp_panel.Protocol.Sign.{Envelope}

-- What a decoded payload is; it has zero values where decoding fails.
pub record Payloads : Type 0 where
  pub port_check : Bytes → PortCheck
  pub restart_frps : Bytes → RestartFrps
  pub set_ratelimit : Bytes → SetRateLimit
  pub update_agent : Bytes → UpdateAgent

-- The host: its state, how a command, `nft` and the writing of a token's files change it, the
-- listener of a port with the name of its process, the answers of the admin API.
pub record Host : Type 1 where
  pub W : Type 0
  pub run : List Bytes → W → W × Bytes × Bool
  pub nft : List Bytes → Bytes → W → W × Bool
  pub write_toml : Bytes → W → W × Bool
  pub save : Bytes → W → W × Bool
  pub frps_bin : Bytes
  pub local_listen : W → ℤ → Bytes → Option Bytes
  pub get : W → String → Option (List RawProxy)

pub record RestartRes : Type 0 where
  pub ok : Bool
  pub frps_version : Bytes
  pub message : Option RestartError

pub record RateLimitRes : Type 0 where
  pub ok : Bool
  pub applied : ℤ
  pub message : Option LimitError

pub data Reply : Type 0 where
  pong : Reply
  port_check_res : PortCheckRes → Reply
  proxy_list : List ProxyInfo → Reply
  restart_res : RestartRes → Reply
  ratelimit_res : RateLimitRes → Reply
  update_res : UpdateRes → Reply

-- the first proxy of frps on the port, whatever its protocol
unfoldable pub registered_on : ℤ → List ProxyInfo → Option Bytes
registered_on port [] = none
registered_on port (p ∷ ps) =
    if eqb_ℤ p.remote_port port then some p.name else registered_on port ps

unfoldable pub busy : PortCheck → BusyReason → Occupant → PortCheckRes
busy pc reason occupant = record {
  port = pc.port;
  proto = pc.proto;
  available = false;
  reason = some reason;
  occupant = occupant;
}

unfoldable pub available_res : PortCheck → PortCheckRes
available_res pc = record {
  port = pc.port;
  proto = pc.proto;
  available = true;
  reason = none;
  occupant = Occupant.nobody;
}

abbrev pub listener : Bytes → Occupant
listener [] = Occupant.unknown_process
listener (b ∷ bs) = Occupant.process (b ∷ bs)

-- the proxies, if frps answers
abbrev pub answered : List ProxyInfo × Bool → List ProxyInfo
answered (ps, true) = []
answered (ps, false) = ps

-- `reserved`, the listener and the proxies of frps in turn
unfoldable pub check_port : Option Bytes → List ProxyInfo × Bool → PortCheck → PortCheckRes
check_port listening proxies pc = elim (reserved_reason pc.port) [
  | some r ↦ busy pc BusyReason.reserved (Occupant.rule r)
  | none ↦ elim listening [
    | some name ↦ busy pc BusyReason.listen (listener name)
    | none ↦ elim (registered_on pc.port (answered proxies)) [
      | some name ↦ busy pc BusyReason.frps_registered (Occupant.frps name)
      | none ↦ available_res pc
    ]
  ]
]

abbrev is_http : Bytes → Bool
is_http url = has_prefix (codes "https://") url || has_prefix (codes "http://") url

unfoldable pub start_update : Bool → UpdateAgent → Bool × UpdateRes
start_update updating up =
    if not (is_http up.base_url)
    then (
      updating,
      record { ok = false; started = false; message = some UpdateError.invalid_source },
    )
    else if updating
    then (true, record { ok = false; started = false; message = some UpdateError.already_updating })
    else (true, record { ok = true; started = true; message = none })

abbrev is_none {ℓ} : {A : Type ℓ} → Option A → Bool
is_none none = true
is_none (some e) = false

unfoldable pub restart_result : Bytes → Option RestartError → RestartRes
restart_result version err = record { ok = is_none err; frps_version = version; message = err }

unfoldable pub rate_limit_result : ℤ → Option LimitError → RateLimitRes
rate_limit_result applied err = record { ok = is_none err; applied = applied; message = err }

module _ (host : Host) where
  open host use {W}

  -- `s.updating`, `s.cfg.FrpsToken` and the host
  pub record Agent : Type 0 where
    pub updating : Bool
    pub frps_token : Bytes
    pub world : W

  unfoldable pub on_port_check : PortCheck → Agent → Agent × List Reply
  on_port_check pc a = (
    a,
    port_check_res
          (check_port (host.local_listen a.world pc.port pc.proto) (proxies (host.get a.world)) pc)
        ∷ [],
  )

  unfoldable pub on_restart : RestartFrps → Agent → Agent × List Reply
  on_restart rf a =
      let (w, token, err) =
        rotate_token host.run host.write_toml host.save host.frps_bin rf.new_frps_token a.frps_token
          a.world in
      let (w', version) = bin_version host.run host.write_toml host.save host.frps_bin w in
      (record a { frps_token = token; world = w' }, restart_res (restart_result version err) ∷ [])

  unfoldable pub on_rate_limit : SetRateLimit → Agent → Agent × List Reply
  on_rate_limit rl a =
      let (w, applied, err) = apply_rate_limit host.run host.nft rl a.world in
      (record a { world = w }, ratelimit_res (rate_limit_result applied err) ∷ [])

  unfoldable pub on_update : UpdateAgent → Agent → Agent × List Reply
  on_update up a =
      let (updating, res) = start_update a.updating up in
      (record a { updating = updating }, update_res res ∷ [])

  module _ (payloads : Payloads) where
    -- the agent afterwards and the replies; an update has started if its reply says so
    unfoldable pub dispatch : Envelope → Agent → Agent × List Reply
    dispatch env a =
        if same_bytes env.typ (codes "ping")
        then (a, pong ∷ [])
        else if same_bytes env.typ (codes "port_check")
        then on_port_check (payloads.port_check env.payload) a
        else if same_bytes env.typ (codes "list_proxies")
        then (a, proxy_list (proxies (host.get a.world)).0 ∷ [])
        else if same_bytes env.typ (codes "restart_frps")
        then on_restart (payloads.restart_frps env.payload) a
        else if same_bytes env.typ (codes "set_ratelimit")
        then on_rate_limit (payloads.set_ratelimit env.payload) a
        else if same_bytes env.typ (codes "update_agent")
        then on_update (payloads.update_agent env.payload) a
        else (a, [])
