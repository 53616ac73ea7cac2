-- ===== src/Agent/Commands/Updates.antt =====
-- How many updates start.
use frp_panel.Prelude.{ℕ, ◌+◌, ◌≡◌, Bool, true, false, List, [], ◌∷◌, ◌++◌, arith, if◌then◌else◌}
use frp_panel.Protocol.Message.{UpdateAgent}
use frp_panel.Protocol.Sign.{Envelope}
use frp_panel.Agent.Commands.{
  Payloads, Host, Agent, Reply, pong, port_check_res, proxy_list, restart_res, ratelimit_res,
  update_res, dispatch, start_update, on_port_check, on_restart, on_rate_limit, on_update,
}

abbrev is_start : Reply → ℕ
is_start pong = 0
is_start (port_check_res r) = 0
is_start (proxy_list ps) = 0
is_start (restart_res r) = 0
is_start (ratelimit_res r) = 0
is_start (update_res r) = if r.started then 1 else 0

-- the updates that start
unfoldable pub started : List Reply → ℕ
started [] = 0
started (r ∷ rs) = is_start r + started rs

started-append : (rs ss : List Reply) → started (rs ++ ss) ≡ started rs + started ss
unfolding started
started-append [] ss = omega arith
started-append (r ∷ rs) ss = omega (arith, started-append rs ss)

-- the updates that may still start
abbrev pub allowance : Bool → ℕ
allowance true = 0
allowance false = 1

start_update-allowance :
    (updating : Bool) (up : UpdateAgent)
    → (if (start_update updating up).1.started then 1 else 0)
        + allowance (start_update updating up).0
      ≡ allowance updating
unfolding start_update
start_update-allowance true up = ground arith
start_update-allowance false up = ground arith

module _ (host : Host) where
  on_update-allowance :
      (up : UpdateAgent) (a : Agent host)
      → started (on_update host up a).1 + allowance (on_update host up a).0.updating
        ≡ allowance a.updating
  unfolding on_update started
  on_update-allowance up a = omega (arith, start_update-allowance a.updating up)

  module _ (payloads : Payloads) where
    dispatch-allowance :
        (e : Envelope) (a : Agent host)
        → started (dispatch host payloads e a).1 + allowance (dispatch host payloads e a).0.updating
          ≡ allowance a.updating
    unfolding dispatch started on_port_check on_restart on_rate_limit
    dispatch-allowance e a = ground (arith, on_update-allowance (payloads.update_agent e.payload) a)

    -- the commands of the panels, one after the other, and all replies
    unfoldable pub dispatch_all : List Envelope → Agent host → Agent host × List Reply
    dispatch_all [] a = (a, [])
    dispatch_all (e ∷ es) a =
        let (a', replies) = dispatch host payloads e a in
        let (a'', rest) = dispatch_all es a' in (a'', replies ++ rest)

    -- Whatever commands come while no update ends: none starts if one is running, and at most one
    -- otherwise; the agent is updating afterwards exactly if it was or one has started.
    started-dispatch_all :
        (es : List Envelope) (a : Agent host)
        → started (dispatch_all es a).1 + allowance (dispatch_all es a).0.updating
          ≡ allowance a.updating
    unfolding dispatch_all started
    started-dispatch_all [] a = omega arith
    started-dispatch_all (e ∷ es) a =
        let a' = (dispatch host payloads e a).0 in
        omega (
          arith,
          started-append (dispatch host payloads e a).1 (dispatch_all es a').1,
          dispatch-allowance e a,
          started-dispatch_all es a',
        )
