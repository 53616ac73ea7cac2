-- ===== src/Frpc/Processes/Tracked.antt =====
-- Calls that do not overlap: the processes that run are those of the map.
use frp_panel.Prelude.{
  ℕ, suc, ◌+◌, ◌≡◌, refl, sym, subst, ◌≤◌, ◌∙◌, false, Option, none, some, List, [], ◌∷◌,
  if◌then◌else◌, arith, Bool-cases, Option-cases, inl, inr,
}
use frp_panel.Prelude.Int.{ℤ, eqb_ℤ, eqb_ℤ_iff}
use frp_panel.Prelude.Assoc.{Assoc, lookup, int_eq, lookup-insert, lookup-erase}
use frp_panel.Frpc.Processes.{
  Proc, same_proc, Manager, new_manager, cancel, start_proc, is_starting, end_call, look, launch,
  ensure_node, stop_node, restart_node, stop_each, stop_all, Call, ensure, restart, stop,
  stop_every, call, calls, is_some, is_running,
}

-- the processes of a node
unfoldable pub running_of : ℤ → List Proc → ℕ
running_of node [] = 0
running_of node ((n, k) ∷ ps) =
    let rest = running_of node ps in if eqb_ℤ n node then suc rest else rest

-- how often a process is there
unfoldable pub times : Proc → List Proc → ℕ
times p [] = 0
times p (q ∷ qs) = let rest = times p qs in if same_proc q p then suc rest else rest

running_of-cancel_self :
    (node : ℤ) (k : ℕ) (ps : List Proc)
    → running_of node (cancel (node, k) ps) + times (node, k) ps ≡ running_of node ps
unfolding running_of cancel times
running_of-cancel_self node k [] = omega arith
running_of-cancel_self node k ((n, j) ∷ ps) = ground (arith, running_of-cancel_self node k ps)

running_of-cancel_other :
    (node other : ℤ) (k : ℕ) (ps : List Proc)
    → eqb_ℤ other node ≡ false
    → running_of node (cancel (other, k) ps) ≡ running_of node ps
unfolding running_of cancel
running_of-cancel_other node other k [] h = refl
running_of-cancel_other node other k ((n, j) ∷ ps) h = ground (
  arith,
  eqb_ℤ_iff n other,
  eqb_ℤ_iff n node,
  eqb_ℤ_iff other node,
  running_of-cancel_other node other k ps h,
)

times-cancel_other :
    (node other : ℤ) (k j : ℕ) (ps : List Proc)
    → eqb_ℤ other node ≡ false
    → times (node, j) (cancel (other, k) ps) ≡ times (node, j) ps
unfolding times cancel
times-cancel_other node other k j [] h = refl
times-cancel_other node other k j ((n, i) ∷ ps) h = ground (
  arith,
  eqb_ℤ_iff n other,
  eqb_ℤ_iff n node,
  eqb_ℤ_iff other node,
  times-cancel_other node other k j ps h,
)

-- A node has no process, or just the one in the map.
abbrev pub Exact : ℤ → Option ℕ → List Proc → Type 0
Exact node none ps = running_of node ps ≡ 0
Exact node (some k) ps = (running_of node ps ≡ 1) × (times (node, k) ps ≡ 1)

pub record IsTracked (m : Manager) : Type 0 where
  pub idle : m.starting ≡ []
  pub exact : (node : ℤ) → Exact node (lookup node m.procs) m.running

pub new_manager-IsTracked : IsTracked new_manager
unfolding new_manager running_of lookup
new_manager-IsTracked = record { idle = refl; exact = λ node. refl }

times-le : (node : ℤ) (k : ℕ) (ps : List Proc) → times (node, k) ps ≤ running_of node ps
unfolding times running_of
times-le node k [] = omega arith
times-le node k ((n, j) ∷ ps) = ground (arith, times-le node k ps)

pub Exact-start_self :
    (node : ℤ) (k : ℕ) (ps : List Proc)
    → running_of node ps ≡ 0
    → Exact node (some k) ((node, k) ∷ ps)
unfolding running_of times
Exact-start_self node k ps h = ground (arith, times-le node k ps, eqb_ℤ_iff node node)

pub Exact-start_other :
    (node other : ℤ) (k : ℕ) (o : Option ℕ) (ps : List Proc)
    → eqb_ℤ other node ≡ false
    → Exact node o ps
    → Exact node o ((other, k) ∷ ps)
unfolding running_of times
Exact-start_other node other k none ps h x = ground arith
Exact-start_other node other k (some j) ps h x = ground arith

pub Exact-cancel_self :
    (node : ℤ) (k : ℕ) (ps : List Proc)
    → Exact node (some k) ps
    → Exact node none (cancel (node, k) ps)
Exact-cancel_self node k ps x = omega (arith, running_of-cancel_self node k ps)

pub Exact-cancel_other :
    (node other : ℤ) (k : ℕ) (o : Option ℕ) (ps : List Proc)
    → eqb_ℤ other node ≡ false
    → Exact node o ps
    → Exact node o (cancel (other, k) ps)
Exact-cancel_other node other k none ps h x = running_of-cancel_other node other k ps h ∙ x
Exact-cancel_other node other k (some j) ps h (x, y) =
    (running_of-cancel_other node other k ps h ∙ x, times-cancel_other node other k j ps h ∙ y)

start_proc-Exact :
    (node : ℤ) (m : Manager)
    → ((n : ℤ) → Exact n (lookup n m.procs) m.running)
    → lookup node m.procs ≡ none
    → (n : ℤ) → Exact n (lookup n (start_proc node m).procs) (start_proc node m).running
unfolding start_proc
start_proc-Exact node m x new n =
    rw (lookup-insert node n m.next m.procs) (elim (Bool-cases (eqb_ℤ node n)) [
      | inl same ↦ rw same (
          subst (λ j. Exact j (some m.next) ((node, m.next) ∷ m.running))
            ((eqb_ℤ_iff node n).0 same)
            (Exact-start_self node m.next m.running
              (subst (λ o. Exact node o m.running) new (x node))))
      | inr other ↦
          rw other (Exact-start_other n node m.next (lookup n m.procs) m.running other (x n))
    ])

pub ensure_node-new :
    (node : ℤ) (m : Manager)
    → lookup node m.procs ≡ none
    → m.starting ≡ []
    → ensure_node node m ≡ start_proc node m
unfolding ensure_node look launch is_starting end_call start_proc
ensure_node-new node m new idle = ground (arith, eqb_ℤ_iff node node)

pub ensure_node-old :
    (node : ℤ) (m : Manager) (k : ℕ)
    → lookup node m.procs ≡ some k
    → m.starting ≡ []
    → ensure_node node m ≡ m
unfolding ensure_node look launch is_starting
ensure_node-old node m k old idle = ground arith

start_proc-IsTracked :
    (node : ℤ) (m : Manager)
    → IsTracked m
    → lookup node m.procs ≡ none
    → IsTracked (start_proc node m)
unfolding start_proc
start_proc-IsTracked node m t new = record {
  idle = t.idle;
  exact = start_proc-Exact node m t.exact new;
}

pub ensure_node-IsTracked : (node : ℤ) (m : Manager) → IsTracked m → IsTracked (ensure_node node m)
ensure_node-IsTracked node m t = elim (Option-cases (lookup node m.procs)) [
  | inl new ↦
      subst IsTracked (sym (ensure_node-new node m new t.idle)) (start_proc-IsTracked node m t new)
  | inr (k, old) ↦ subst IsTracked (sym (ensure_node-old node m k old t.idle)) t
]

pub stop_node-IsTracked : (node : ℤ) (m : Manager) → IsTracked m → IsTracked (stop_node node m)
unfolding stop_node
stop_node-IsTracked node m t = elim (Option-cases (lookup node m.procs)) [
  | inl e ↦ rw e t
  | inr (k, e) ↦ rw e (record {
    idle = t.idle;
    exact = λ n. rw (lookup-erase node n m.procs) (elim (Bool-cases (eqb_ℤ node n)) [
      | inl same ↦ rw same (
          subst (λ j. Exact j none (cancel (node, k) m.running)) ((eqb_ℤ_iff node n).0 same)
            (Exact-cancel_self node k m.running
              (subst (λ o. Exact node o m.running) e (t.exact node))))
      | inr other ↦
          rw other (Exact-cancel_other n node k (lookup n m.procs) m.running other (t.exact n))
    ]);
  })
]

-- A node that was stopped has no process.
pub running_of-stop_node :
    (node : ℤ) (m : Manager) → IsTracked m → running_of node (stop_node node m).running ≡ 0
unfolding stop_node
running_of-stop_node node m t = elim (Option-cases (lookup node m.procs)) [
  | inl e ↦ rw e (subst (λ o. Exact node o m.running) e (t.exact node))
  | inr (k, e) ↦
      rw e
        (Exact-cancel_self node k m.running (subst (λ o. Exact node o m.running) e (t.exact node)))
]

restart_node-IsTracked : (node : ℤ) (m : Manager) → IsTracked m → IsTracked (restart_node node m)
unfolding restart_node
restart_node-IsTracked node m t =
    ensure_node-IsTracked node (stop_node node m) (stop_node-IsTracked node m t)

stop_each-IsTracked : (ps : Assoc ℤ ℕ) (m : Manager) → IsTracked m → IsTracked (stop_each ps m)
unfolding stop_each
stop_each-IsTracked [] m t = t
stop_each-IsTracked ((node, k) ∷ ps) m t =
    stop_each-IsTracked ps (stop_node node m) (stop_node-IsTracked node m t)

calls-IsTracked : (cs : List Call) (m : Manager) → IsTracked m → IsTracked (calls cs m)
unfolding calls call stop_all
calls-IsTracked [] m t = t
calls-IsTracked (ensure node ∷ cs) m t = calls-IsTracked cs _ (ensure_node-IsTracked node m t)
calls-IsTracked (restart node ∷ cs) m t = calls-IsTracked cs _ (restart_node-IsTracked node m t)
calls-IsTracked (stop node ∷ cs) m t = calls-IsTracked cs _ (stop_node-IsTracked node m t)
calls-IsTracked (stop_every ∷ cs) m t = calls-IsTracked cs _ (stop_each-IsTracked m.procs m t)

running_iff :
    (node : ℤ) (o : Option ℕ) (ps : List Proc)
    → Exact node o ps
    → running_of node ps ≡ (if is_some o then 1 else 0)
running_iff node none ps x = x
running_iff node (some k) ps x = x.0

pub running_of-is_running :
    (node : ℤ) (m : Manager)
    → IsTracked m
    → running_of node m.running ≡ (if is_running node m then 1 else 0)
unfolding is_running
running_of-is_running node m t = running_iff node _ _ (t.exact node)

-- After any calls that do not overlap, a node has one frpc process if `Running` says so, and none
-- otherwise.
pub calls-one_process :
    (cs : List Call) (node : ℤ)
    → running_of node (calls cs new_manager).running
      ≡ (if is_running node (calls cs new_manager) then 1 else 0)
calls-one_process cs node =
    running_of-is_running node (calls cs new_manager)
      (calls-IsTracked cs new_manager new_manager-IsTracked)
