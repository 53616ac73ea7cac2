-- ===== src/Protocol/Message.antt =====
-- The messages of internal/protocol/protocol.go. A text that the code takes apart is its bytes.
use Prim.Native.String.{String}
use frp_panel.Prelude.{Bool, List, Option}
use frp_panel.Prelude.Int.{ℤ}
use frp_panel.Prelude.Text.{Bytes}
use frp_panel.Ports.Policy.{PortError}
use frp_panel.Metrics.Float.{Floats}

pub record ProxyTraffic : Type 0 where
  pub remote_port : ℤ
  pub proto : String
  pub status : String
  pub delta_in : ℤ
  pub delta_out : ℤ

pub record Metrics (F : Floats) : Type 0 where
  pub seq : ℤ
  pub cpu : F.Float
  pub mem : F.Float
  pub mem_total : ℤ
  pub net_rx_bps : ℤ
  pub net_tx_bps : ℤ
  pub net_rx_delta : ℤ
  pub net_tx_delta : ℤ
  pub frps_up : Bool
  pub proxies : List ProxyTraffic
  pub sampled_at : ℤ
  pub backfill : Bool

pub record PortCheck : Type 0 where
  pub port : ℤ
  pub proto : Bytes

-- "reserved", "listen" and "frps_registered"
pub data BusyReason : Type 0 where
  reserved listen frps_registered : BusyReason

-- What `Process` names: nothing, the rule that reserves the port, a process, one that could not be
-- found, or a proxy of frps.
pub data Occupant : Type 0 where
  nobody unknown_process : Occupant
  rule : PortError → Occupant
  process : Bytes → Occupant
  frps : Bytes → Occupant

pub record PortCheckRes : Type 0 where
  pub port : ℤ
  pub proto : Bytes
  pub available : Bool
  pub reason : Option BusyReason
  pub occupant : Occupant

pub record ProxyInfo : Type 0 where
  pub name : Bytes
  pub proto : String
  pub remote_port : ℤ
  pub status : String
  pub today_in : ℤ
  pub today_out : ℤ

pub record RestartFrps : Type 0 where
  pub new_frps_token : Bytes
  pub reason : Bytes

pub record PortSpec : Type 0 where
  pub port : ℤ
  pub proto : Bytes

pub record SetRateLimit : Type 0 where
  pub rate : ℤ
  pub ports : List PortSpec

pub record UpdateAgent : Type 0 where
  pub version : Bytes
  pub base_url : Bytes
  pub mirror : Bytes

-- the address is invalid, or an update is running
pub data UpdateError : Type 0 where
  invalid_source already_updating : UpdateError

pub record UpdateRes : Type 0 where
  pub ok : Bool
  pub started : Bool
  pub message : Option UpdateError

pub record Hello : Type 0 where
  pub panel_version : Bytes
  pub min_agent_proto : ℤ
  pub last_commit_seq : ℤ

pub record HelloAck : Type 0 where
  pub agent_version : Bytes
  pub frps_version : Bytes
  pub proto : ℤ
  pub frps_port : ℤ
  pub frps_token : Bytes
  pub compatible : Bool
  pub message : Bytes
