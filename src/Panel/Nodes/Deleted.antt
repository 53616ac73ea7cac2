-- ===== src/Panel/Nodes/Deleted.antt =====
-- What is left of a node that is deleted.
use frp_panel.Prelude.{
  ◌≡◌, refl, ◌∙◌, ap, ◌⊎◌, inl, inr, Bool, true, false, none, some, List, [], ◌∷◌, if◌then◌else◌,
  arith,
}
use frp_panel.Prelude.Int.{ℤ, eqb_ℤ, eqb_ℤ_iff}
use frp_panel.Prelude.Assoc.{lookup, int_eq, lookup-erase}
use frp_panel.Metrics.Float.{Floats}
use frp_panel.Mappings.Store.{MappingTarget}
use frp_panel.Pipeline.State.{remove_node}
use frp_panel.Frpc.Processes.Tracked.{running_of, IsTracked, running_of-stop_node}
use frp_panel.Panel.Errors.{db_down}
use frp_panel.Panel.Nodes.Table.{
  Node, Stored, get_node, delete_row, delete_node_targets, delete_metrics, delete_node,
}
use frp_panel.Panel.Nodes.{App, World, stop, remove}
use frp_panel.Panel.Nodes.Handlers.{Reply, fail, ok, handle_delete_node}
use frp_panel.Panel.Nodes.Links.{AllExact, running_of-stop_link}

-- the rows of a node
unfoldable pub targets_of : ℤ → List MappingTarget → List MappingTarget
targets_of id [] = []
targets_of id (t ∷ ts) =
    let rest = targets_of id ts in if eqb_ℤ t.node_id id then t ∷ rest else rest

unfoldable pub metrics_of : ℤ → List ℤ → List ℤ
metrics_of id [] = []
metrics_of id (n ∷ ns) = let rest = metrics_of id ns in if eqb_ℤ n id then n ∷ rest else rest

get_node-delete :
    (id k : ℤ) (ns : List Node)
    → get_node k (delete_row id ns) ≡ (if eqb_ℤ id k then none else get_node k ns)
unfolding get_node delete_row
get_node-delete id k [] = ground arith
get_node-delete id k (n ∷ ns) =
    ground (arith, eqb_ℤ_iff n.id id, eqb_ℤ_iff n.id k, eqb_ℤ_iff id k, get_node-delete id k ns)

targets_of-delete :
    (id k : ℤ) (ts : List MappingTarget)
    → targets_of k (delete_node_targets id ts) ≡ (if eqb_ℤ id k then [] else targets_of k ts)
unfolding targets_of delete_node_targets
targets_of-delete id k [] = ground arith
targets_of-delete id k (t ∷ ts) = ground (
  arith,
  eqb_ℤ_iff t.node_id id,
  eqb_ℤ_iff t.node_id k,
  eqb_ℤ_iff id k,
  targets_of-delete id k ts,
)

metrics_of-delete :
    (id k : ℤ) (ns : List ℤ)
    → metrics_of k (delete_metrics id ns) ≡ (if eqb_ℤ id k then [] else metrics_of k ns)
unfolding metrics_of delete_metrics
metrics_of-delete id k [] = ground arith
metrics_of-delete id k (n ∷ ns) =
    ground (arith, eqb_ℤ_iff n id, eqb_ℤ_iff n k, eqb_ℤ_iff id k, metrics_of-delete id k ns)

-- No row of the node is left, in none of the tables, and each other node has the rows that it had.
abbrev pub RowsGone : ℤ → Stored → Stored → Type 0
RowsGone id s s' =
    (k : ℤ)
    → (get_node k s'.nodes.rows ≡ (if eqb_ℤ id k then none else get_node k s.nodes.rows))
      × (targets_of k s'.tables.targets
          ≡ (if eqb_ℤ id k then [] else targets_of k s.tables.targets))
      × (metrics_of k s'.metrics ≡ (if eqb_ℤ id k then [] else metrics_of k s.metrics))

delete_node-RowsGone : (id : ℤ) (s : Stored) → RowsGone id s (delete_node id s)
unfolding delete_node
delete_node-RowsGone id s k = (
  get_node-delete id k s.nodes.rows,
  targets_of-delete id k s.tables.targets,
  metrics_of-delete id k s.metrics,
)

module _ (F : Floats) where
  -- Nothing runs for the node, and the pipeline has no state of it.
  abbrev pub IsTornDown : ℤ → App F → Type 0
  IsTornDown id a =
      (lookup id a.links.conns ≡ none)
      × (running_of id a.links.running ≡ 0)
      × (running_of id a.frpc.running ≡ 0)
      × (lookup id a.pipe.st ≡ none)

  remove-IsTornDown :
      (id : ℤ) (a : App F) → IsTracked a.frpc → AllExact a.links → IsTornDown id (remove F id a)
  unfolding remove stop remove_node
  remove-IsTornDown id a t x =
      let (gone, none_runs) = running_of-stop_link id a.links x in
      (
        gone,
        none_runs,
        running_of-stop_node id a.frpc t,
        lookup-erase id id a.pipe.st
            ∙ ap (λ b. if b then none else lookup id a.pipe.st) ((eqb_ℤ_iff id id).1 refl),
      )

  -- The node is torn down, and its rows are gone if the answer says so, and all there if not.
  abbrev pub IsDeleted : ℤ → Stored → App F × Reply → Type 0
  IsDeleted id s q =
      IsTornDown id q.0
      × (((q.1 ≡ ok) × RowsGone id s q.0.stored) ⊎ ((q.1 ≡ fail db_down) × (q.0.stored ≡ s)))

  answered-IsDeleted :
      (write_fails : Bool) (id : ℤ) (a : App F)
      → IsTornDown id a
      → IsDeleted id a.stored (
          if write_fails
          then (a, fail db_down)
          else (record a { stored = delete_node id a.stored }, ok))
  answered-IsDeleted true id a down = (down, inr (refl, refl))
  answered-IsDeleted false id a down = (down, inl (refl, delete_node-RowsGone id a.stored))

  removed-IsDeleted :
      (write_fails : Bool) (id : ℤ) (a : App F)
      → IsTornDown id (remove F id a)
      → let a' = remove F id a in
        IsDeleted id a.stored (
          if write_fails
          then (a', fail db_down)
          else (record a' { stored = delete_node id a'.stored }, ok))
  unfolding remove stop
  removed-IsDeleted write_fails id a down = answered-IsDeleted write_fails id (remove F id a) down

  -- A request to delete a node that finds the database up tears the node down, whatever becomes of the
  -- transaction: no connection and no frpc of it runs, and the pipeline has no state of it. If the
  -- answer is that all is well, then none of its rows is left, neither among the nodes nor among the
  -- targets of mappings nor in the tables of metrics and traffic, and each other node has the rows
  -- there that it had. If the transaction fails, the answer is an error, and all rows are as they
  -- were. The links and the processes were those that the manager and the map knew.
  pub handle_delete_node-torn_down :
      (w : World) (id : ℤ) (a : App F)
      → IsTracked a.frpc
      → AllExact a.links
      → w.db_up ≡ true
      → IsDeleted id a.stored (handle_delete_node F w (some id) a)
  unfolding handle_delete_node
  handle_delete_node-torn_down w id a t x up =
      rw up (removed-IsDeleted w.write_fails id a (remove-IsTornDown id a t x))
