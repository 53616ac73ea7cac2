-- ===== src/Frpc/Processes.antt =====
-- Which frpc processes run: `EnsureNode`, `startProc`, `StopNode`, `RestartNode`, `StopAll` and `Running`
-- of `FrpcManager`. `EnsureNode` takes its lock twice: it looks for a process, and later puts one in the
-- map; in between other calls may run. A process is its node and a number of its own, and it runs until
-- its context is cancelled: `supervise` starts frpc again whenever it ends. Reloading changes no
-- process. The configuration is written without an error.
pub mod Tracked
pub mod Orphan
mod Tests
use frp_panel.Prelude.{
  ℕ, suc, Bool, true, false, Option, none, some, List, [], ◌∷◌, ◌||◌, if◌then◌else◌,
}
use frp_panel.Prelude.Int.{ℤ, eqb_ℤ}
use frp_panel.Prelude.Assoc.{Assoc, Eq, lookup, insert, erase, int_eq, nat_eq, pair_eq}

abbrev pub Proc : Type 0
Proc = ℤ × ℕ

abbrev pub same_proc : Proc → Proc → Bool
same_proc = Eq.beq pair_eq

-- `procs`, the contexts that are not cancelled, the next number, and the calls of `EnsureNode` that have
-- found no process and not yet started one
pub record Manager : Type 0 where
  pub procs : Assoc ℤ ℕ
  pub running : List Proc
  pub next : ℕ
  pub starting : List ℤ

unfoldable pub new_manager : Manager
new_manager = record { procs = []; running = []; next = 0; starting = [] }

-- `p.cancel()`
unfoldable pub cancel : Proc → List Proc → List Proc
cancel p [] = []
cancel p (q ∷ qs) = let rest = cancel p qs in if same_proc q p then rest else q ∷ rest

unfoldable pub start_proc : ℤ → Manager → Manager
start_proc node m = record m {
  procs = insert node m.next m.procs;
  running = (node, m.next) ∷ m.running;
  next = suc m.next;
}

unfoldable pub is_starting : ℤ → List ℤ → Bool
is_starting node [] = false
is_starting node (n ∷ ns) = eqb_ℤ n node || is_starting node ns

unfoldable pub end_call : ℤ → List ℤ → List ℤ
end_call node [] = []
end_call node (n ∷ ns) = let rest = end_call node ns in if eqb_ℤ n node then ns else n ∷ rest

-- the look at `m.procs`
unfoldable pub look : ℤ → Manager → Manager
look node m = elim (lookup node m.procs) [
  | none ↦ record m { starting = node ∷ m.starting }
  | some p ↦ m
]

-- the end of a call that has found no process
unfoldable pub launch : ℤ → Manager → Manager
launch node m =
    if is_starting node m.starting
    then start_proc node (record m { starting = end_call node m.starting })
    else m

-- a call that nothing comes in between
unfoldable pub ensure_node : ℤ → Manager → Manager
ensure_node node m = launch node (look node m)

abbrev stop_found : ℤ → Option ℕ → Manager → Manager
stop_found node none m = m
stop_found node (some k) m = record m {
  procs = erase node m.procs;
  running = cancel (node, k) m.running;
}

unfoldable pub stop_node : ℤ → Manager → Manager
stop_node node m = stop_found node (lookup node m.procs) m

unfoldable pub restart_node : ℤ → Manager → Manager
restart_node node m = ensure_node node (stop_node node m)

-- the loop of `StopAll` over the nodes that it has read
unfoldable pub stop_each : Assoc ℤ ℕ → Manager → Manager
stop_each [] m = m
stop_each ((node, k) ∷ rest) m = stop_each rest (stop_node node m)

unfoldable pub stop_all : Manager → Manager
stop_all m = stop_each m.procs m

abbrev is_some {ℓ} : {A : Type ℓ} → Option A → Bool
is_some none = false
is_some (some a) = true

-- `Running`
unfoldable pub is_running : ℤ → Manager → Bool
is_running node m = is_some (lookup node m.procs)

-- Calls that do not overlap.
pub data Call : Type 0 where
  ensure restart stop : ℤ → Call
  stop_every : Call

unfoldable pub call : Call → Manager → Manager
call (ensure node) m = ensure_node node m
call (restart node) m = restart_node node m
call (stop node) m = stop_node node m
call stop_every m = stop_all m

unfoldable pub calls : List Call → Manager → Manager
calls [] m = m
calls (c ∷ cs) m = calls cs (call c m)

-- The parts of calls, in any order.
pub data Event : Type 0 where
  looked launched stopped : ℤ → Event

unfoldable pub step : Event → Manager → Manager
step (looked node) m = look node m
step (launched node) m = launch node m
step (stopped node) m = stop_node node m

unfoldable pub schedule : List Event → Manager → Manager
schedule [] m = m
schedule (e ∷ es) m = schedule es (step e m)
