-- ===== src/Panel/Nodes/Links.antt =====
-- The connections of the nodes: one for each that is managed.
use frp_panel.Prelude.{
  ℕ, ◌≡◌, refl, sym, ap, subst, ◌∙◌, true, false, Option, none, some, List, [], ◌∷◌, if◌then◌else◌,
  arith, Bool-cases, Option-cases, inl, inr,
}
use frp_panel.Prelude.Int.{ℤ, eqb_ℤ, eqb_ℤ_iff}
use frp_panel.Prelude.Assoc.{lookup, int_eq, lookup-insert, lookup-erase}
use frp_panel.Metrics.Float.{Floats}
use frp_panel.Frpc.Processes.{cancel}
use frp_panel.Frpc.Processes.Tracked.{
  running_of, Exact, Exact-start_self, Exact-start_other, Exact-cancel_self, Exact-cancel_other,
}
use frp_panel.Panel.Nodes.Table.{Node}
use frp_panel.Panel.Nodes.{
  Conn, LinkState, has_conn, start_link, stop_link, World, App, started, start, start_each,
  try_start_all,
}

abbrev pub serial_of : Option Conn → Option ℕ
serial_of none = none
serial_of (some c) = some c.serial

-- A node has the connection of the map that runs, or none.
abbrev pub AllExact : LinkState → Type 0
AllExact l = (id : ℤ) → Exact id (serial_of (lookup id l.conns)) l.running

start_link-AllExact : (node : Node) (l : LinkState) → AllExact l → AllExact (start_link node l)
unfolding start_link
start_link-AllExact node l x = elim (Option-cases (lookup node.id l.conns)) [
  | inr (c, e) ↦ rw e x
  | inl new ↦ rw new (λ id.
      rw
        (lookup-insert node.id id (record { serial = l.next; node = node; up = false; proto = 0 })
          l.conns)
        (elim (Bool-cases (eqb_ℤ node.id id)) [
          | inl same ↦ rw same (
              subst (λ j. Exact j (some l.next) ((node.id, l.next) ∷ l.running))
                ((eqb_ℤ_iff node.id id).0 same)
                (Exact-start_self node.id l.next l.running
                  (subst (λ o. Exact node.id (serial_of o) l.running) new (x node.id))))
          | inr other ↦ rw other (
              Exact-start_other id node.id l.next (serial_of (lookup id l.conns)) l.running other
                (x id))
        ]))
]

stop_self :
    (id : ℤ) (c : Conn) (l : LinkState)
    → AllExact l
    → lookup id l.conns ≡ some c
    → running_of id (cancel (id, c.serial) l.running) ≡ 0
stop_self id c l x e =
    Exact-cancel_self id c.serial l.running (subst (λ o. Exact id (serial_of o) l.running) e (x id))

stop_link-AllExact : (id : ℤ) (l : LinkState) → AllExact l → AllExact (stop_link id l)
unfolding stop_link
stop_link-AllExact id l x = elim (Option-cases (lookup id l.conns)) [
  | inl e ↦ rw e x
  | inr (c, e) ↦ rw e (λ j. rw (lookup-erase id j l.conns) (elim (Bool-cases (eqb_ℤ id j)) [
    | inl same ↦ rw same (
        subst (λ k. Exact k none (cancel (id, c.serial) l.running)) ((eqb_ℤ_iff id j).0 same)
          (stop_self id c l x e))
    | inr other ↦
        rw other
          (Exact-cancel_other j id c.serial (serial_of (lookup j l.conns)) l.running other (x j))
  ]))
]

-- A node that was stopped has no connection.
pub running_of-stop_link :
    (id : ℤ) (l : LinkState)
    → AllExact l
    → (lookup id (stop_link id l).conns ≡ none) × (running_of id (stop_link id l).running ≡ 0)
unfolding stop_link
running_of-stop_link id l x = elim (Option-cases (lookup id l.conns)) [
  | inl e ↦ rw e (e, subst (λ o. Exact id (serial_of o) l.running) e (x id))
  | inr (c, e) ↦ rw e (
    lookup-erase id id l.conns
        ∙ ap (λ b. if b then none else lookup id l.conns) ((eqb_ℤ_iff id id).1 refl),
    stop_self id c l x e,
  )
]

-- `start` and `stop` of any nodes, in any order: the steps of overlapping calls of `Add`, `Restart`,
-- `Remove`, `StartAll` and `StopAll`
pub data Event : Type 0 where
  start_of : Node → Event
  stop_of : ℤ → Event

unfoldable pub events : List Event → LinkState → LinkState
events [] l = l
events (start_of node ∷ es) l = events es (start_link node l)
events (stop_of id ∷ es) l = events es (stop_link id l)

events-AllExact : (es : List Event) (l : LinkState) → AllExact l → AllExact (events es l)
unfolding events
events-AllExact [] l x = x
events-AllExact (start_of node ∷ es) l x = events-AllExact es _ (start_link-AllExact node l x)
events-AllExact (stop_of id ∷ es) l x = events-AllExact es _ (stop_link-AllExact id l x)

abbrev pub no_links : LinkState
no_links = record { conns = []; running = []; next = 0 }

pub no_links-AllExact : AllExact no_links
unfolding lookup running_of
no_links-AllExact id = refl

one_or_none :
    (id : ℤ) (o : Option Conn) (l : LinkState)
    → Exact id (serial_of o) l.running
    → running_of id l.running ≡ (if has_conn o then 1 else 0)
one_or_none id none l x = x
one_or_none id (some c) l x = x.0

-- However the calls of the manager overlap: a node has one connection that is kept up, if the manager
-- has one for it, and none otherwise.
pub events-one_link :
    (es : List Event) (id : ℤ)
    → running_of id (events es no_links).running
      ≡ (if has_conn (lookup id (events es no_links).conns) then 1 else 0)
events-one_link es id =
    one_or_none id (lookup id (events es no_links).conns) (events es no_links)
      (events-AllExact es no_links no_links-AllExact id)

module _ (F : Floats) where
  start-links :
      (w : World) (node : Node) (a : App F) → (start F w node a).links ≡ start_link node a.links
  unfolding start started start_link
  start-links w node a = ground arith

  start_each-AllExact :
      (w : World) (ns : List Node) (a : App F)
      → AllExact a.links
      → AllExact (start_each F w ns a).links
  unfolding start_each
  start_each-AllExact w [] a x = x
  start_each-AllExact w (n ∷ ns) a x =
      start_each-AllExact w ns (start F w n a)
        (subst AllExact (sym (start-links w n a)) (start_link-AllExact n a.links x))

  -- A node that has a connection keeps it.
  start_link-keeps :
      (node : Node) (id : ℤ) (l : LinkState)
      → has_conn (lookup id l.conns) ≡ true
      → has_conn (lookup id (start_link node l).conns) ≡ true
  unfolding start_link
  start_link-keeps node id l h = elim (Option-cases (lookup node.id l.conns)) [
    | inr (c, e) ↦ rw e h
    | inl e ↦ rw e (
        ground (
          arith,
          lookup-insert node.id id (record { serial = l.next; node = node; up = false; proto = 0 })
              l.conns,
        ))
  ]

  start_link-has :
      (node : Node) (l : LinkState) → has_conn (lookup node.id (start_link node l).conns) ≡ true
  unfolding start_link
  start_link-has node l = elim (Option-cases (lookup node.id l.conns)) [
    | inr (c, e) ↦ rw e (rw e refl)
    | inl e ↦ rw e (
        ground (
          arith,
          eqb_ℤ_iff node.id node.id,
          lookup-insert node.id node.id
              (record { serial = l.next; node = node; up = false; proto = 0 }) l.conns,
        ))
  ]

  start_each-keeps :
      (w : World) (ns : List Node) (id : ℤ) (a : App F)
      → has_conn (lookup id a.links.conns) ≡ true
      → has_conn (lookup id (start_each F w ns a).links.conns) ≡ true
  unfolding start_each
  start_each-keeps w [] id a h = h
  start_each-keeps w (n ∷ ns) id a h = start_each-keeps w ns id (start F w n a) (
      ap (λ (l : LinkState). has_conn (lookup id l.conns)) (start-links w n a)
      ∙ start_link-keeps n id a.links h)

  -- each of the nodes has one connection
  abbrev pub EachOnce : List Node → LinkState → Type 0
  EachOnce [] l = Unit {0}
  EachOnce (n ∷ ns) l = (running_of n.id l.running ≡ 1) × EachOnce ns l

  start_each-EachOnce :
      (w : World) (ns : List Node) (a : App F)
      → AllExact a.links
      → EachOnce ns (start_each F w ns a).links
  unfolding start_each
  start_each-EachOnce w [] a x = tt
  start_each-EachOnce w (n ∷ ns) a x =
      let x' = subst AllExact (sym (start-links w n a)) (start_link-AllExact n a.links x) in
      (
        one_or_none n.id (lookup n.id (start_each F w ns (start F w n a)).links.conns)
              (start_each F w ns (start F w n a)).links
              (start_each-AllExact w ns (start F w n a) x' n.id)
            ∙ ap (λ b. if b then 1 else 0)
                (start_each-keeps w ns n.id (start F w n a) (
                  ap (λ (l : LinkState). has_conn (lookup n.id l.conns)) (start-links w n a)
                  ∙ start_link-has n a.links)),
        start_each-EachOnce w ns (start F w n a) x',
      )

  -- Once the list of nodes could be loaded, each node in it has exactly one connection that is kept
  -- up, whatever the manager had started before, in any order.
  pub try_start_all-once :
      (w : World) (a : App F) (es : List Event)
      → a.links ≡ events es no_links
      → EachOnce a.stored.nodes.rows (try_start_all F w false a).0.links
  unfolding try_start_all
  try_start_all-once w a es e =
      start_each-EachOnce w a.stored.nodes.rows a
        (subst AllExact (sym e) (events-AllExact es no_links no_links-AllExact))
