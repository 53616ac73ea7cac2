-- ===== src/Panel/Sync/Rounds.antt =====
-- What a round of the loop of `SyncAll` does to the files and the processes.
use frp_panel.Prelude.{
  ◌≡◌, refl, sym, ap, subst, ◌∙◌, true, false, Option, none, some, List, [], ◌∷◌, arith, Bool-cases,
  Option-cases, inl, inr,
}
use frp_panel.Prelude.Int.{ℤ, eqb_ℤ, eqb_ℤ_iff}
use frp_panel.Prelude.Assoc.{lookup, insert, int_eq, lookup-insert, lookup-erase}
use frp_panel.Mappings.Store.{Tables}
use frp_panel.Frpc.Processes.{Manager, ensure_node, start_proc, is_running}
use frp_panel.Frpc.Processes.Tracked.{
  IsTracked, ensure_node-IsTracked, ensure_node-new, ensure_node-old,
}
use frp_panel.Panel.Link.{NodeProxyRow, enabled_proxies_for_node}
use frp_panel.Panel.Nodes.Table.{Node, get_node}
use frp_panel.Panel.Nodes.{Conn}
use frp_panel.Panel.Sync.{
  FrpcParams, params_of, Plane, Env, left_of, pushed_to, apply_rows, sync_found, sync_node,
}

pub get_node-id : (id : ℤ) (ns : List Node) (n : Node) → get_node id ns ≡ some n → n.id ≡ id
unfolding get_node
get_node-id id [] n e = ground arith
get_node-id id (m ∷ ms) n e = ground (arith, eqb_ℤ_iff m.id id, get_node-id id ms n)

pub ensure_node_self :
    (id : ℤ) (m : Manager) → IsTracked m → is_running id (ensure_node id m) ≡ true
unfolding is_running start_proc
ensure_node_self id m t = elim (Option-cases (lookup id m.procs)) [
  | inl e ↦
      rw (ensure_node-new id m e t.idle)
        (ground (arith, eqb_ℤ_iff id id, lookup-insert id id m.next m.procs))
  | inr (k, e) ↦ rw (ensure_node-old id m k e t.idle) (rw e refl)
]

ensure_node_keeps :
    (id other : ℤ) (m : Manager)
    → IsTracked m
    → is_running id m ≡ true
    → is_running id (ensure_node other m) ≡ true
unfolding is_running start_proc
ensure_node_keeps id other m t h = elim (Option-cases (lookup other m.procs)) [
  | inl e ↦
      rw (ensure_node-new other m e t.idle)
        (ground (arith, h, lookup-insert other id m.next m.procs))
  | inr (k, e) ↦ rw (ensure_node-old other m k e t.idle) h
]

-- The node's file holds a configuration, and it has a process.
abbrev pub Applied : ℤ → FrpcParams → Plane → Type 0
Applied id want p = (lookup id p.files ≡ some want) × (is_running id p.frpc ≡ true)

pushed_to-plane :
    (id rate : ℤ) (rows : List NodeProxyRow) (c : Option Conn) (p : Plane)
    → ((pushed_to id rate rows c p).files ≡ p.files) × ((pushed_to id rate rows c p).frpc ≡ p.frpc)
pushed_to-plane id rate rows none p = (refl, refl)
pushed_to-plane id rate rows (some c) p = elim (Bool-cases c.up) [
  | inl e ↦ rw e (refl, refl)
  | inr e ↦ rw e (refl, refl)
]

module _ (env : Env) (db : Tables) where
  -- what a round of the loop leaves: nothing new, a file that could not be written, or a new one
  pub data Round (id : ℤ) (p q : Plane) : Type 0 where
    same : q.files ≡ p.files → q.frpc ≡ p.frpc → Round id p q
    broke :
        (l : Option FrpcParams) → q.files ≡ left_of id l p.files → q.frpc ≡ p.frpc → Round id p q
    wrote :
        (params : FrpcParams)
        → q.files ≡ insert id params p.files
        → q.frpc ≡ ensure_node id p.frpc
        → Round id p q

  pub apply_rows-wrote :
      (id : ℤ) (node : Node) (rows : List NodeProxyRow) (p : Plane)
      → node.id ≡ id
      → env.write_fails node.id ≡ none
      → let q = (apply_rows env id node rows p).0 in
        (q.files ≡ insert id (params_of node rows) p.files) × (q.frpc ≡ ensure_node id p.frpc)
  unfolding apply_rows
  apply_rows-wrote id node rows p h e = rw e (
    (pushed_to-plane id env.rate rows (lookup id env.conns) _).0
        ∙ ap (λ k. insert k (params_of node rows) p.files) h,
    (pushed_to-plane id env.rate rows (lookup id env.conns) _).1 ∙ ap (λ k. ensure_node k p.frpc) h,
  )

  apply_rows-Round :
      (id : ℤ) (node : Node) (rows : List NodeProxyRow) (p : Plane)
      → node.id ≡ id
      → Round id p (apply_rows env id node rows p).0
  unfolding apply_rows
  apply_rows-Round id node rows p h = elim (Option-cases (env.write_fails node.id)) [
    | inl e ↦ let (f, r) = apply_rows-wrote id node rows p h e in wrote (params_of node rows) f r
    | inr (l, e) ↦ rw e (broke l (ap (λ k. left_of k l p.files) h) refl)
  ]

  pub sync_node-Round : (id : ℤ) (p : Plane) → Round id p (sync_node env db id p).0
  unfolding sync_node sync_found
  sync_node-Round id p = elim (Bool-cases (env.get_fails id)) [
    | inl f ↦ rw f (same refl refl)
    | inr f ↦ elim (Option-cases (get_node id env.nodes)) [
      | inl e ↦ rw (f, e) (same refl refl)
      | inr (n, e) ↦ elim (Bool-cases (env.query_fails id)) [
        | inl g ↦ rw (f, e, sync_found, g) (same refl refl)
        | inr g ↦
            rw (f, e, sync_found, g)
              (apply_rows-Round id n (enabled_proxies_for_node id db) p
                (get_node-id id env.nodes n e))
      ]
    ]
  ]

  pub Round-IsTracked : (id : ℤ) (p q : Plane) → Round id p q → IsTracked p.frpc → IsTracked q.frpc
  Round-IsTracked id p q (same f r) t = subst IsTracked (sym r) t
  Round-IsTracked id p q (broke l f r) t = subst IsTracked (sym r) t
  Round-IsTracked id p q (wrote params f r) t =
      subst IsTracked (sym r) (ensure_node-IsTracked id p.frpc t)

  -- A round for another node changes nothing at the node.
  pub Round-Applied :
      (id other : ℤ) (want : FrpcParams) (p q : Plane)
      → eqb_ℤ other id ≡ false
      → Round other p q
      → IsTracked p.frpc
      → Applied id want p
      → Applied id want q
  Round-Applied id other want p q h (same f r) t (a, b) =
      (ap (lookup id) f ∙ a, ap (is_running id) r ∙ b)
  Round-Applied id other want p q h (broke none f r) t (a, b) =
      (ground (arith, f, a, lookup-erase other id p.files), ap (is_running id) r ∙ b)
  Round-Applied id other want p q h (broke (some l) f r) t (a, b) =
      (ground (arith, f, a, lookup-insert other id l p.files), ap (is_running id) r ∙ b)
  Round-Applied id other want p q h (wrote params f r) t (a, b) = (
    ground (arith, f, a, lookup-insert other id params p.files),
    ap (is_running id) r ∙ ensure_node_keeps id other p.frpc t b,
  )
