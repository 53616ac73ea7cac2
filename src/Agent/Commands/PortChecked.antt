-- ===== src/Agent/Commands/PortChecked.antt =====
-- Which ports the agent calls free, and how often an update starts.
use frp_panel.Prelude.{◌≡◌, ◌↔◌, ◌⊎◌, refl, Bool, true, false, Option, none, List, [], ◌∷◌, arith}
use frp_panel.Prelude.Int.{ℤ, pos, eqb_ℤ, ◌≤ℤ◌, ◌<ℤ◌}
use frp_panel.Prelude.Text.{Bytes}
use frp_panel.Ports.Policy.{reserved_reason}
use frp_panel.Protocol.Message.{PortCheck, ProxyInfo}
use frp_panel.Agent.Commands.{registered_on, busy, available_res, answered, check_port}

abbrev pub NoneOn : ℤ → List ProxyInfo → Type 0
NoneOn port [] = Unit {0}
NoneOn port (p ∷ ps) = (eqb_ℤ p.remote_port port ≡ false) × NoneOn port ps

registered_on_iff :
    (port : ℤ) (ps : List ProxyInfo) → (registered_on port ps ≡ none) ↔ NoneOn port ps
unfolding registered_on
registered_on_iff port [] = ((λ h. tt), (λ h. refl))
registered_on_iff port (p ∷ ps) = ground (arith, registered_on_iff port ps)

-- No rule of the policy reserves the port.
abbrev pub Unreserved : ℤ → Type 0
Unreserved port =
    (pos 1024 ≤ℤ port)
    × ((port <ℤ pos 7400) ⊎ (pos 7500 <ℤ port))
    × (eqb_ℤ port (pos 7000) ≡ false)
    × (eqb_ℤ port (pos 8443) ≡ false)

reserved_reason_iff : (port : ℤ) → (reserved_reason port ≡ none) ↔ Unreserved port
unfolding reserved_reason
reserved_reason_iff port = ground arith

-- The agent calls a port free exactly if no rule reserves it, nothing listens on it for the protocol,
-- and frps, if it answers, has no proxy on it for any protocol.
check_port_iff :
    (listening : Option Bytes) (proxies : List ProxyInfo × Bool) (pc : PortCheck)
    → ((check_port listening proxies pc).available ≡ true)
      ↔ (Unreserved pc.port × (listening ≡ none) × NoneOn pc.port (answered proxies))
unfolding check_port busy available_res
check_port_iff listening proxies pc =
    ground (arith, reserved_reason_iff pc.port, registered_on_iff pc.port (answered proxies))
