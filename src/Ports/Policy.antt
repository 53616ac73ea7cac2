-- ===== src/Ports/Policy.antt =====
-- internal/portutil/validate.go, with the reserved ports of internal/portutil/portutil.go.
use frp_panel.Prelude.{
  ◌≡◌, ◌↔◌, ◌⊎◌, Bool, true, false, ◌&&◌, ◌||◌, Option, none, some, if◌then◌else◌, arith,
}
use frp_panel.Prelude.Int.{ℤ, pos, ltb_ℤ, leb_ℤ, eqb_ℤ, ◌≤ℤ◌, ◌<ℤ◌}
use frp_panel.Prelude.Assoc.{int_eq}

-- the errors of the checks; the texts of the source are in Chinese
pub data PortError : Type 0 where
  out_of_range reserved_ssh reserved_frps_bind reserved_agent reserved_admin reserved_low :
      PortError

abbrev pub port_ssh : ℤ
port_ssh = pos 22

abbrev pub port_frps_bind : ℤ
port_frps_bind = pos 7000

abbrev pub port_agent_mgmt : ℤ
port_agent_mgmt = pos 8443

abbrev pub admin_low : ℤ
admin_low = pos 7400

abbrev pub admin_high : ℤ
admin_high = pos 7500

unfoldable pub validate_port : ℤ → Option PortError
validate_port port =
    if ltb_ℤ port (pos 1) || ltb_ℤ (pos 65535) port then some out_of_range else none

-- no reason is the empty text of the source
unfoldable pub reserved_reason : ℤ → Option PortError
reserved_reason port =
    if eqb_ℤ port port_ssh
    then some reserved_ssh
    else if eqb_ℤ port port_frps_bind
    then some reserved_frps_bind
    else if eqb_ℤ port port_agent_mgmt
    then some reserved_agent
    else if leb_ℤ admin_low port && leb_ℤ port admin_high
    then some reserved_admin
    else if ltb_ℤ port (pos 1024)
    then some reserved_low
    else none

abbrev is_some : Option PortError → Bool
is_some none = false
is_some (some e) = true

unfoldable pub is_reserved : ℤ → Bool
is_reserved port = is_some (reserved_reason port)

abbrev or_else : Option PortError → Option PortError → Option PortError
or_else none f = f
or_else (some e) f = some e

unfoldable pub validate_remote_port : ℤ → Option PortError
validate_remote_port port = or_else (validate_port port) (reserved_reason port)

-- A port is accepted exactly if it lies in 1024-65535, outside of 7400-7500, and is neither 7000
-- nor 8443.
validate_remote_port_iff :
    (port : ℤ)
    → (validate_remote_port port ≡ none) ↔ (
        (pos 1024 ≤ℤ port)
        × (port ≤ℤ pos 65535)
        × ((port <ℤ pos 7400) ⊎ (pos 7500 <ℤ port))
        × (eqb_ℤ port (pos 7000) ≡ false)
        × (eqb_ℤ port (pos 8443) ≡ false))
unfolding validate_remote_port validate_port reserved_reason
validate_remote_port_iff port = ground arith
