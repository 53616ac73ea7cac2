-- ===== src/Frpc/Processes/Orphan.antt =====
-- Two calls of `EnsureNode` that overlap.
use frp_panel.Prelude.{
  ℕ, suc, ◌<◌, ◌≡◌, ◌≢◌, refl, sym, ap, subst, ◌∙◌, Bool, true, false, ◌||◌, none, some, List, [],
  ◌∷◌, arith, Bool-cases, Option-cases, inl, inr,
}
use frp_panel.Prelude.Int.{ℤ, eqb_ℤ_iff}
use frp_panel.Prelude.Assoc.{lookup, insert, int_eq, lookup-insert, lookup-erase}
use frp_panel.Frpc.Processes.{
  Proc, same_proc, Manager, cancel, start_proc, is_starting, end_call, look, launch, stop_node,
  Event, looked, launched, stopped, step, schedule,
}

-- Does a process run?
unfoldable pub runs : Proc → List Proc → Bool
runs p [] = false
runs p (q ∷ qs) = same_proc q p || runs p qs

runs-cancel_other :
    (node other : ℤ) (k j : ℕ) (ps : List Proc)
    → same_proc (other, j) (node, k) ≡ false
    → runs (node, k) (cancel (other, j) ps) ≡ runs (node, k) ps
unfolding runs cancel
runs-cancel_other node other k j [] h = refl
runs-cancel_other node other k j ((n, i) ∷ ps) h = ground (
  arith,
  eqb_ℤ_iff n other,
  eqb_ℤ_iff n node,
  eqb_ℤ_iff other node,
  runs-cancel_other node other k j ps h,
)

-- The process runs, and the map does not know it.
record IsOrphan (node : ℤ) (k : ℕ) (m : Manager) : Type 0 where
  alive : runs (node, k) m.running ≡ true
  unknown : lookup node m.procs ≢ some k
  old : k < m.next

start_proc-IsOrphan :
    (node other : ℤ) (k : ℕ) (m : Manager)
    → IsOrphan node k m
    → IsOrphan node k (start_proc other m)
unfolding start_proc runs
start_proc-IsOrphan node other k m o = record {
  alive = ground (arith, o.alive);
  unknown = λ e. o.unknown (ground (arith, e, o.old, lookup-insert other node m.next m.procs));
  old = omega (arith, o.old);
}

launch-IsOrphan :
    (node other : ℤ) (k : ℕ) (m : Manager) → IsOrphan node k m → IsOrphan node k (launch other m)
unfolding launch
launch-IsOrphan node other k m o = elim (Bool-cases (is_starting other m.starting)) [
  | inl h ↦ rw h (
      start_proc-IsOrphan node other k _
        (record { alive = o.alive; unknown = o.unknown; old = o.old }))
  | inr h ↦ rw h o
]

look-IsOrphan :
    (node other : ℤ) (k : ℕ) (m : Manager) → IsOrphan node k m → IsOrphan node k (look other m)
unfolding look
look-IsOrphan node other k m o = elim (Option-cases (lookup other m.procs)) [
  | inl e ↦ rw (e, look) (record { alive = o.alive; unknown = o.unknown; old = o.old })
  | inr (j, e) ↦ rw (e, look) o
]

stop_node-IsOrphan :
    (node other : ℤ) (k : ℕ) (m : Manager) → IsOrphan node k m → IsOrphan node k (stop_node other m)
unfolding stop_node
stop_node-IsOrphan node other k m o = elim (Option-cases (lookup other m.procs)) [
  | inl e ↦ rw e o
  | inr (j, e) ↦ rw e (record {
    alive = runs-cancel_other node other k j m.running (another j e) ∙ o.alive;
    unknown = λ h. o.unknown (ground (arith, h, lookup-erase other node m.procs));
    old = o.old;
  })
]
  where
    another : (j : ℕ) → lookup other m.procs ≡ some j → same_proc (other, j) (node, k) ≡ false
    another j e = elim (Bool-cases (same_proc (other, j) (node, k))) [
      | inl same ↦ absurd (o.unknown (ground (arith, eqb_ℤ_iff other node)))
      | inr other ↦ other
    ]

schedule-IsOrphan :
    (node : ℤ) (k : ℕ) (es : List Event) (m : Manager)
    → IsOrphan node k m
    → IsOrphan node k (schedule es m)
unfolding schedule step
schedule-IsOrphan node k [] m o = o
schedule-IsOrphan node k (looked n ∷ es) m o =
    schedule-IsOrphan node k es _ (look-IsOrphan node n k m o)
schedule-IsOrphan node k (launched n ∷ es) m o =
    schedule-IsOrphan node k es _ (launch-IsOrphan node n k m o)
schedule-IsOrphan node k (stopped n ∷ es) m o =
    schedule-IsOrphan node k es _ (stop_node-IsOrphan node n k m o)

-- two calls for the node that both look before either starts its process
abbrev pub two_calls : ℤ → List Event
two_calls node = looked node ∷ looked node ∷ launched node ∷ launched node ∷ []

look-new :
    (node : ℤ) (m : Manager)
    → lookup node m.procs ≡ none
    → look node m ≡ record m { starting = node ∷ m.starting }
unfolding look
look-new node m new = rw (new, look) refl

launch-waiting :
    (node : ℤ) (ss : List ℤ) (m : Manager)
    → launch node (record m { starting = node ∷ ss }) ≡ start_proc node (record m { starting = ss })
unfolding launch is_starting end_call start_proc
launch-waiting node ss m = ground (arith, eqb_ℤ_iff node node)

schedule-two_calls :
    (node : ℤ) (m : Manager)
    → lookup node m.procs ≡ none
    → schedule (two_calls node) m ≡ start_proc node (start_proc node m)
unfolding schedule step start_proc
schedule-two_calls node m new =
    ap (λ n. launch node (launch node (look node n))) (look-new node m new)
    ∙ ap (λ n. launch node (launch node n))
        (look-new node (record m { starting = node ∷ m.starting }) new)
    ∙ ap (launch node) (launch-waiting node (node ∷ m.starting) m)
    ∙ launch-waiting node m.starting (start_proc node m)

twice-IsOrphan :
    (node : ℤ) (m : Manager) → IsOrphan node m.next (start_proc node (start_proc node m))
unfolding start_proc runs
twice-IsOrphan node m = record {
  alive = ground (arith, eqb_ℤ_iff node node);
  unknown = λ e. ground (
    arith,
    e,
    eqb_ℤ_iff node node,
    lookup-insert node node (suc m.next) (insert node m.next m.procs),
  );
  old = omega arith;
}

-- If a node has no process, and two calls of `EnsureNode` for it both look before either starts one,
-- then the process that the first starts runs forever, whatever calls come later, `StopNode` among
-- them.
pub two_calls-orphan :
    (node : ℤ) (m : Manager) (es : List Event)
    → lookup node m.procs ≡ none
    → runs (node, m.next) (schedule es (schedule (two_calls node) m)).running ≡ true
two_calls-orphan node m es new =
    (schedule-IsOrphan node m.next es _ (
      subst (IsOrphan node m.next) (sym (schedule-two_calls node m new))
        (twice-IsOrphan node m))).alive
