-- ===== src/Frpc/Processes/Tests.antt =====
-- Calls for nodes 1 and 2, and two that overlap.
use frp_panel.Prelude.{◌≡◌, refl, true, if◌then◌else◌, List, [], ◌∷◌}
use frp_panel.Prelude.Int.{pos}
use frp_panel.Prelude.Assoc.{lookup}
use frp_panel.Frpc.Processes.{
  Call, ensure, restart, stop, calls, looked, stopped, schedule, new_manager, is_running,
}
use frp_panel.Frpc.Processes.Tracked.{running_of, calls-one_process}
use frp_panel.Frpc.Processes.Orphan.{runs, two_calls, two_calls-orphan}

abbrev some_calls : List Call
some_calls = ensure (pos 1) ∷ ensure (pos 2) ∷ ensure (pos 1) ∷ restart (pos 2) ∷ stop (pos 1) ∷ []

calls-one_process_example :
    running_of (pos 2) (calls some_calls new_manager).running
    ≡ (if is_running (pos 2) (calls some_calls new_manager) then 1 else 0)
calls-one_process_example = calls-one_process some_calls (pos 2)

two_calls-orphan_example :
    (let m = schedule (two_calls (pos 1)) new_manager in
      runs (pos 1, 0) (schedule (stopped (pos 1) ∷ looked (pos 1) ∷ []) m).running ≡ true)
unfolding new_manager lookup
two_calls-orphan_example =
    two_calls-orphan (pos 1) new_manager (stopped (pos 1) ∷ looked (pos 1) ∷ []) refl
