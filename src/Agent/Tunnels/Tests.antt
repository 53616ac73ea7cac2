-- ===== src/Agent/Tunnels/Tests.antt =====
-- A tunnel over three samples, frps starting again before the third, and over a start of the agent.
use frp_panel.Prelude.{◌≡◌, refl, List, [], ◌∷◌, arith, ◌+◌}
use frp_panel.Prelude.Int.{ℤ, pos, ◌+ℤ◌}
use frp_panel.Prelude.Assoc.{lookup}
use frp_panel.Prelude.Text.{codes}
use frp_panel.Protocol.Message.{ProxyInfo}
use frp_panel.Agent.Tunnels.{Key, key_eq, is_seen}
use frp_panel.Agent.Tunnels.Charged.{inbound, reported}
use frp_panel.Agent.Tunnels.Carried.{
  Use, grew, restarted, charged_run, charged_run-carried, charged_run-again, totals_run,
  totals_from, counted, forgotten, carried, end_total,
}

abbrev web : ℤ → ProxyInfo
web n = record {
  name = codes "m1_n1";
  proto = "tcp";
  remote_port = pos 8000;
  status = "online";
  today_in = n;
  today_out = pos 0;
}

abbrev web_key : Key
web_key = ("tcp", pos 8000)

abbrev three_samples : List (List ProxyInfo)
three_samples = (web (pos 100) ∷ []) ∷ (web (pos 250) ∷ []) ∷ (web (pos 40) ∷ []) ∷ []

abbrev uses : List Use
uses = grew 100 ∷ grew 150 ∷ restarted 7 40 ∷ []

charged_run-carried_example :
    charged_run inbound web_key three_samples [] +ℤ pos (forgotten uses) ≡ pos (carried uses)
unfolding lookup is_seen totals_run reported totals_from
charged_run-carried_example =
    charged_run-carried inbound web_key three_samples [] 0 uses (refl, (refl, (refl, tt))) refl refl
      (omega arith) (omega arith)

charged_run-again_example :
    charged_run inbound web_key ((web (pos 100) ∷ []) ∷ (web (pos 250) ∷ []) ∷ []) []
      +ℤ charged_run inbound web_key ((web (pos 260) ∷ []) ∷ []) []
    ≡ pos (counted (grew 100 ∷ grew 150 ∷ []) + 10) +ℤ pos (end_total 0 (grew 100 ∷ grew 150 ∷ []))
unfolding is_seen totals_run reported totals_from end_total
charged_run-again_example =
    charged_run-again inbound web_key ((web (pos 100) ∷ []) ∷ (web (pos 250) ∷ []) ∷ [])
      (web (pos 260) ∷ []) (grew 100 ∷ grew 150 ∷ []) 10 (refl, (refl, (refl, tt))) refl
      (omega arith) refl (omega arith)
