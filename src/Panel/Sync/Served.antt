-- ===== src/Panel/Sync/Served.antt =====
-- What a change of the mappings leaves at the nodes.
use mathlib.Core.List.{Memᴰ}
use frp_panel.Prelude.{
  ◌↔◌, ◌≡◌, refl, sym, ap, subst, ◌∙◌, true, false, none, some, [], ◌∷◌, arith, if◌then◌else◌,
  Bool-cases, inl, inr,
}
use frp_panel.Prelude.Int.{ℤ, eqb_ℤ, eqb_ℤ_iff}
use frp_panel.Prelude.Assoc.{Assoc, lookup, int_eq, lookup-insert}
use frp_panel.Mappings.Store.{Tables}
use frp_panel.Mappings.Handlers.{Reply, fail, World, Request, serve}
use frp_panel.Mappings.Handlers.Settled.{is_fail, IsSettled, refused, synced, serve-IsSettled}
use frp_panel.Frpc.Processes.{is_running}
use frp_panel.Frpc.Processes.Tracked.{running_of, IsTracked, running_of-is_running}
use frp_panel.Panel.Link.Wanted.{IsWanted, mem-desired_proxies}
use frp_panel.Panel.Link.{Proxy, enabled_proxies_for_node}
use frp_panel.Panel.Nodes.Table.{Node, get_node}
use frp_panel.Panel.Nodes.{Conn, has_conn}
use frp_panel.Panel.Sync.{
  FrpcParams, params_of, Plane, Env, sync_found, sync_node, sync_each, sync_all,
}
use frp_panel.Panel.Sync.Rounds.{
  get_node-id, ensure_node_self, Applied, apply_rows-wrote, sync_node-Round, Round-IsTracked,
  Round-Applied,
}

module _ (env : Env) (db : Tables) where
  -- The node has a row, and nothing fails for it.
  abbrev pub IsSound : ℤ → Node → Type 0
  IsSound id node =
      (get_node id env.nodes ≡ some node)
      × (env.get_fails id ≡ false)
      × (env.query_fails id ≡ false)
      × (env.write_fails id ≡ none)

  -- the configuration that a node should have
  abbrev pub wanted_params : ℤ → Node → FrpcParams
  wanted_params id node = params_of node (enabled_proxies_for_node id db)

  sync_node-Applied :
      (id : ℤ) (node : Node) (p : Plane)
      → IsSound id node
      → IsTracked p.frpc
      → Applied id (wanted_params id node) (sync_node env db id p).0
  unfolding sync_node sync_found
  sync_node-Applied id node p (e, f, g, w) t =
      let h = get_node-id id env.nodes node e in
      let (files, frpc) =
        apply_rows-wrote env db id node (enabled_proxies_for_node id db) p h
          (ap env.write_fails h ∙ w) in
      rw (f, e, sync_found, g)
        (
          ap (lookup id) files
              ∙ lookup-insert id id (wanted_params id node) p.files
              ∙ ap (λ b. if b then some (wanted_params id node) else lookup id p.files)
                  ((eqb_ℤ_iff id id).1 refl),
          ap (is_running id) frpc ∙ ensure_node_self id p.frpc t,
        )

  round-Applied :
      (id j : ℤ) (node : Node) (p : Plane)
      → IsSound id node
      → IsTracked p.frpc
      → Applied id (wanted_params id node) p
      → Applied id (wanted_params id node) (sync_node env db j p).0
  round-Applied id j node p s t a = elim (Bool-cases (eqb_ℤ j id)) [
    | inl e ↦
        subst (λ k. Applied id (wanted_params id node) (sync_node env db k p).0)
          (sym ((eqb_ℤ_iff j id).0 e)) (sync_node-Applied id node p s t)
    | inr e ↦
        Round-Applied env db id j (wanted_params id node) p _ e (sync_node-Round env db j p) t a
  ]

  sync_each_keeps :
      (cs : Assoc ℤ Conn) (id : ℤ) (node : Node) (p : Plane)
      → IsSound id node
      → IsTracked p.frpc
      → Applied id (wanted_params id node) p
      → Applied id (wanted_params id node) (sync_each env db cs p)
  unfolding sync_each
  sync_each_keeps [] id node p s t a = a
  sync_each_keeps ((j, c) ∷ cs) id node p s t a =
      sync_each_keeps cs id node (sync_node env db j p).0 s
        (Round-IsTracked env db j p _ (sync_node-Round env db j p) t)
        (round-Applied id j node p s t a)

  sync_each-IsTracked :
      (cs : Assoc ℤ Conn) (p : Plane) → IsTracked p.frpc → IsTracked (sync_each env db cs p).frpc
  unfolding sync_each
  sync_each-IsTracked [] p t = t
  sync_each-IsTracked ((j, c) ∷ cs) p t =
      sync_each-IsTracked cs (sync_node env db j p).0
        (Round-IsTracked env db j p _ (sync_node-Round env db j p) t)

  sync_each-Applied :
      (cs : Assoc ℤ Conn) (id : ℤ) (node : Node) (p : Plane)
      → has_conn (lookup id cs) ≡ true
      → IsSound id node
      → IsTracked p.frpc
      → Applied id (wanted_params id node) (sync_each env db cs p)
  unfolding sync_each lookup
  sync_each-Applied [] id node p h s t = absurd (ground arith)
  sync_each-Applied ((j, c) ∷ cs) id node p h s t =
      let t' = Round-IsTracked env db j p _ (sync_node-Round env db j p) t in
      elim (Bool-cases (eqb_ℤ j id)) [
        | inl e ↦ sync_each_keeps cs id node (sync_node env db j p).0 s t' (
            subst (λ k. Applied id (wanted_params id node) (sync_node env db k p).0)
              (sym ((eqb_ℤ_iff j id).0 e)) (sync_node-Applied id node p s t))
        | inr e ↦ sync_each-Applied cs id node (sync_node env db j p).0 (ground arith) s t'
      ]

settled-synced :
    (env : Env) (db : Tables) (p : Plane) (q : Tables × Plane × Reply)
    → IsSettled (sync_all env) db p q
    → is_fail q.2 ≡ false
    → q.1 ≡ sync_all env q.0 p
settled-synced env db p q (refused c r m t s) h = absurd (no_fail q.2 r h)
  where
    no_fail : (r : Reply) → r ≡ fail c → is_fail r ≡ false → ⊥
    no_fail r e h = ground arith
settled-synced env db p q (synced g e) h = e

applied-synced :
    (env : Env) (db : Tables) (p : Plane) (q : Tables × Plane × Reply) (id : ℤ) (node : Node)
    → IsTracked p.frpc
    → has_conn (lookup id env.conns) ≡ true
    → IsSound env db id node
    → q.1 ≡ sync_all env q.0 p
    → (lookup id q.1.files ≡ some (params_of node (enabled_proxies_for_node id q.0)))
      × (running_of id q.1.frpc.running ≡ 1)
unfolding sync_all
applied-synced env db p q id node t c s e =
    let (files, runs) = sync_each-Applied env q.0 env.conns id node p c s t in
    (
      ap (λ (x : Plane). lookup id x.files) e ∙ files,
      ap (λ (x : Plane). running_of id x.frpc.running) e
          ∙ running_of-is_running id _ (sync_each-IsTracked env q.0 env.conns p t)
          ∙ ap (λ b. if b then 1 else 0) runs,
    )

-- A configuration for a node: the node's address and its token, and a proxy for each target of the node
-- whose mapping is enabled in the tables, and no other.
pub record IsConfigOf (id : ℤ) (node : Node) (db : Tables) (f : FrpcParams) : Type 0 where
  pub addr : f.server_addr ≡ node.ip
  pub port : f.server_port ≡ node.frps_port
  pub token : f.token ≡ node.frps_token
  pub proxies : (x : Proxy) → Memᴰ x f.proxies ↔ IsWanted id db x

-- A request to change mappings that is answered without an error reaches each node that has a
-- connection and a row, and for which no statement and no write fails: its configuration of frpc then
-- has the node's address and token, and a proxy exactly for each target of the node, in the tables as
-- they now are, whose mapping is enabled there; and it has one frpc process. What fails for other
-- nodes does not matter. The processes before were those that the map knew.
pub serve-applied :
    (env : Env) (w : World) (r : Request) (db : Tables) (p : Plane) (id : ℤ) (node : Node)
    → IsTracked p.frpc
    → has_conn (lookup id env.conns) ≡ true
    → IsSound env db id node
    → is_fail (serve (sync_all env) w r db p).2 ≡ false
    → let q = serve (sync_all env) w r db p in
      ((f : FrpcParams) × (lookup id q.1.files ≡ some f) × IsConfigOf id node q.0 f)
      × (running_of id q.1.frpc.running ≡ 1)
unfolding params_of
serve-applied env w r db p id node t c s good =
    let q = serve (sync_all env) w r db p in
    let e = settled-synced env db p q (serve-IsSettled (sync_all env) w r db p) good in
    let (files, runs) = applied-synced env db p q id node t c s e in
    (
      (
        params_of node (enabled_proxies_for_node id q.0),
        files,
        record {
          addr = refl;
          port = refl;
          token = refl;
          proxies = λ x. mem-desired_proxies x id q.0;
        },
      ),
      runs,
    )
