-- ===== src/Pipeline/Watermark.antt =====
-- The durable watermark of a node, which a flush moves.
use Prim.Native.String.{String}
use text.Mathlib.Text.{◌==◌ as str_eq}
use text.Mathlib.TextEquality.{eq_iff as str_eq_iff}
use frp_panel.Prelude.{
  ◌≡◌, refl, ap, ◌∙◌, Bool, true, false, some, List, [], ◌∷◌, arith, if◌then◌else◌, Bool-cases, inl,
  inr, ◌&&◌, ◌||◌, ◌++◌, sym, subst, false,
}
use frp_panel.Prelude.Int.{ℤ, pos, ◌≤ℤ◌, ◌<ℤ◌, ltb_ℤ, eqb_ℤ, eqb_ℤ_iff}
use frp_panel.Prelude.Assoc.{Assoc, lookup, int_eq, string_eq, lookup-insert}
use frp_panel.Metrics.Float.{Floats}
use frp_panel.Pipeline.State.{NodeState, DayTraffic, Pipeline}
use frp_panel.Pipeline.Flush.{
  Db, Answers, TrafficRow, Written, write_row, write_traffic, has_traffic, rows_of_days,
  traffic_rows, contains, moves_seq, persist_seqs, set_node_last_commit_seq, drain, drained, flush,
}

-- The watermark of the node is at least `seq`.
abbrev pub Reached : ℤ → ℤ → Assoc ℤ ℤ → Type 0
Reached n seq rows = (w : ℤ) × (lookup n rows ≡ some w) × (seq ≤ℤ w)

module _ (n : ℤ) where
  lookup-set_self :
      (rows : Assoc ℤ ℤ) (seq w : ℤ)
      → lookup n rows ≡ some w
      → lookup n (set_node_last_commit_seq rows n seq)
        ≡ (if eqb_ℤ n n && ltb_ℤ w seq then some seq else some w)
  unfolding set_node_last_commit_seq
  lookup-set_self rows seq w e =
      rw (set_node_last_commit_seq, e) (ground (arith, lookup-insert n n seq rows, eqb_ℤ_iff n n))

  lookup-set_node :
      (rows : Assoc ℤ ℤ) (k seq w : ℤ)
      → lookup n rows ≡ some w
      → lookup n (set_node_last_commit_seq rows k seq)
        ≡ (if eqb_ℤ k n && ltb_ℤ w seq then some seq else some w)
  unfolding set_node_last_commit_seq
  lookup-set_node rows k seq w e = elim (Bool-cases (eqb_ℤ k n)) [
    | inl same ↦ rw ((eqb_ℤ_iff k n).0 same) (lookup-set_self rows seq w e)
    | inr other ↦ ground (arith, lookup-insert k n seq rows)
  ]

  set_node-other :
      (rows : Assoc ℤ ℤ) (k seq : ℤ)
      → eqb_ℤ k n ≡ false
      → lookup n (set_node_last_commit_seq rows k seq) ≡ lookup n rows
  unfolding set_node_last_commit_seq
  set_node-other rows k seq h = ground (arith, lookup-insert k n seq rows)

  module _ (F : Floats) (ok : ℤ → Bool) (failed : List ℤ) where
    -- one turn of the loop
    abbrev next : ℤ → NodeState F → Assoc ℤ ℤ → Assoc ℤ ℤ
    next k s rows =
        if moves_seq F ok failed k s then set_node_last_commit_seq rows k s.seq.last else rows

    next-Reached :
        (k : ℤ) (s : NodeState F) (rows : Assoc ℤ ℤ) (old : ℤ)
        → Reached n old rows
        → Reached n old (next k s rows)
    next-Reached k s rows old (w, e, h) = elim (Bool-cases (moves_seq F ok failed k s)) [
      | inl m ↦ rw m (elim (Bool-cases (eqb_ℤ k n && ltb_ℤ w s.seq.last)) [
        | inl up ↦ (s.seq.last, lookup-set_node rows k s.seq.last w e ∙ rw up refl, ground arith)
        | inr stays ↦ (w, lookup-set_node rows k s.seq.last w e ∙ rw stays refl, h)
      ])
      | inr m ↦ rw m (w, e, h)
    ]

    next-reaches :
        (s : NodeState F) (rows : Assoc ℤ ℤ) (old : ℤ)
        → moves_seq F ok failed n s ≡ true
        → Reached n old rows
        → Reached n s.seq.last (next n s rows)
    next-reaches s rows old m (w, e, h) = rw m (elim (Bool-cases (ltb_ℤ w s.seq.last)) [
      | inl up ↦ (
        s.seq.last,
        ground (arith, eqb_ℤ_iff n n, lookup-set_node rows n s.seq.last w e),
        omega arith,
      )
      | inr stays ↦ (w, ground (arith, lookup-set_node rows n s.seq.last w e), ground arith)
    ])

    next-held :
        (k : ℤ) (s : NodeState F) (rows : Assoc ℤ ℤ)
        → contains n failed ≡ true
        → lookup n (next k s rows) ≡ lookup n rows
    unfolding moves_seq
    next-held k s rows h = ground (arith, set_node-other rows k s.seq.last, eqb_ℤ_iff k n)

    abbrev seqs : Assoc ℤ (NodeState F) → Assoc ℤ ℤ → Assoc ℤ ℤ
    seqs st rows = (persist_seqs F ok failed rows st).0

    persist_seqs-Reached :
        (st : Assoc ℤ (NodeState F)) (rows : Assoc ℤ ℤ) (old : ℤ)
        → Reached n old rows
        → Reached n old (seqs st rows)
    unfolding persist_seqs
    persist_seqs-Reached [] rows old h = h
    persist_seqs-Reached ((k, s) ∷ st) rows old h =
        persist_seqs-Reached st (next k s rows) old (next-Reached k s rows old h)

    -- A node that moves gets its watermark.
    persist_seqs-reaches :
        (st : Assoc ℤ (NodeState F)) (rows : Assoc ℤ ℤ) (s : NodeState F) (old : ℤ)
        → lookup n st ≡ some s
        → moves_seq F ok failed n s ≡ true
        → Reached n old rows
        → Reached n s.seq.last (seqs st rows)
    unfolding persist_seqs lookup
    persist_seqs-reaches [] rows s old e m h = absurd (ground arith)
    persist_seqs-reaches ((k, t) ∷ st) rows s old e m h = elim (Bool-cases (eqb_ℤ k n)) [
      | inl same ↦
          let here : t ≡ s = ground arith in
          rw (here, (eqb_ℤ_iff k n).0 same)
            (persist_seqs-Reached st (next n s rows) s.seq.last (next-reaches s rows old m h))
      | inr other ↦
          persist_seqs-reaches st (next k t rows) s old (ground arith) m
            (next-Reached k t rows old h)
    ]

    -- A node of which a row failed stays where it is.
    persist_seqs-held :
        (st : Assoc ℤ (NodeState F)) (rows : Assoc ℤ ℤ)
        → contains n failed ≡ true
        → lookup n (seqs st rows) ≡ lookup n rows
    unfolding persist_seqs
    persist_seqs-held [] rows h = refl
    persist_seqs-held ((k, s) ∷ st) rows h =
        persist_seqs-held st (next k s rows) h ∙ next-held k s rows h

contains-write_row :
    (n : ℤ) (ok : ℤ → String → Bool) (w : Written) (t : TrafficRow)
    → ((day : String) → ok n day ≡ true)
    → contains n (write_row ok w t).failed ≡ contains n w.failed
unfolding write_row contains
contains-write_row n ok w t h = elim (Bool-cases (eqb_ℤ t.node_id n)) [
  | inl same ↦ rw ((eqb_ℤ_iff t.node_id n).0 same, h t.day) refl
  | inr other ↦ ground arith
]

-- A node all of whose rows are written is none of the failed ones.
contains-write_traffic :
    (n : ℤ) (ok : ℤ → String → Bool) (ts : List TrafficRow) (w : Written)
    → ((day : String) → ok n day ≡ true)
    → contains n (write_traffic ok w ts).failed ≡ contains n w.failed
unfolding write_traffic
contains-write_traffic n ok [] w h = refl
contains-write_traffic n ok (t ∷ ts) w h =
    contains-write_traffic n ok ts (write_row ok w t) h ∙ contains-write_row n ok w t h

-- Some bytes are not 0.
abbrev pub HoldsBytes : DayTraffic → Type 0
HoldsBytes d =
    ¬ ((d.node_rx ≡ pos 0) × (d.node_tx ≡ pos 0) × (d.tun_in ≡ pos 0) × (d.tun_out ≡ pos 0))

-- Is there a row of the node and the day?
unfoldable is_sent : ℤ → String → List TrafficRow → Bool
is_sent n day [] = false
is_sent n day (t ∷ ts) = (eqb_ℤ t.node_id n && str_eq t.day day) || is_sent n day ts

is_sent-append :
    (n : ℤ) (day : String) (ts us : List TrafficRow)
    → is_sent n day (ts ++ us) ≡ (is_sent n day ts || is_sent n day us)
unfolding is_sent
is_sent-append n day [] us = refl
is_sent-append n day (t ∷ ts) us = ground (arith, is_sent-append n day ts us)

has_traffic-HoldsBytes : (d : DayTraffic) → HoldsBytes d → has_traffic d ≡ true
unfolding has_traffic
has_traffic-HoldsBytes d h = elim (Bool-cases (has_traffic d)) [
  | inl e ↦ e
  | inr e ↦ absurd (
      h (
        ground (arith, eqb_ℤ_iff d.node_rx (pos 0)),
        ground (arith, eqb_ℤ_iff d.node_tx (pos 0)),
        ground (arith, eqb_ℤ_iff d.tun_in (pos 0)),
        ground (arith, eqb_ℤ_iff d.tun_out (pos 0)),
      ))
]

is_sent-rows_of_days :
    (n : ℤ) (day : String) (traf : Assoc String DayTraffic) (d : DayTraffic)
    → lookup day traf ≡ some d
    → HoldsBytes d
    → is_sent n day (rows_of_days n traf) ≡ true
unfolding is_sent rows_of_days lookup
is_sent-rows_of_days n day [] d e h = absurd (ground arith)
is_sent-rows_of_days n day ((j, x) ∷ traf) d e h = elim (Bool-cases (str_eq j day)) [
  | inl same ↦
      let here : x ≡ d = ground arith in
      let sent = has_traffic-HoldsBytes x (subst HoldsBytes (sym here) h) in
      rw sent (ground (arith, same, eqb_ℤ_iff n n))
  | inr other ↦ ground (arith, is_sent-rows_of_days n day traf d (ground arith) h)
]

is_sent-traffic_rows :
    (F : Floats) (n : ℤ) (day : String) (st : Assoc ℤ (NodeState F)) (s : NodeState F)
    (d : DayTraffic)
    → lookup n st ≡ some s
    → lookup day s.traf ≡ some d
    → HoldsBytes d
    → is_sent n day (traffic_rows F st) ≡ true
unfolding traffic_rows lookup
is_sent-traffic_rows F n day [] s d e e' h = absurd (ground arith)
is_sent-traffic_rows F n day ((k, t) ∷ st) s d e e' h = elim (Bool-cases (eqb_ℤ k n)) [
  | inl same ↦
      let here : t ≡ s = ground arith in
      let k_is = (eqb_ℤ_iff k n).0 same in
      let sent = is_sent-rows_of_days n day s.traf d e' h in
      rw (k_is, here)
        (is_sent-append n day (rows_of_days n s.traf) (traffic_rows F st) ∙ ground (arith, sent))
  | inr other ↦
      is_sent-append n day (rows_of_days k t.traf) (traffic_rows F st)
      ∙ ground (arith, is_sent-traffic_rows F n day st s d (ground arith) e' h)
]

contains-write_row_keeps :
    (n : ℤ) (ok : ℤ → String → Bool) (w : Written) (t : TrafficRow)
    → contains n w.failed ≡ true
    → contains n (write_row ok w t).failed ≡ true
unfolding write_row contains
contains-write_row_keeps n ok w t h = ground arith

contains-write_traffic_keeps :
    (n : ℤ) (ok : ℤ → String → Bool) (ts : List TrafficRow) (w : Written)
    → contains n w.failed ≡ true
    → contains n (write_traffic ok w ts).failed ≡ true
unfolding write_traffic
contains-write_traffic_keeps n ok [] w h = h
contains-write_traffic_keeps n ok (t ∷ ts) w h =
    contains-write_traffic_keeps n ok ts (write_row ok w t) (contains-write_row_keeps n ok w t h)

contains-write_row_refused :
    (n : ℤ) (ok : ℤ → String → Bool) (w : Written) (t : TrafficRow)
    → t.node_id ≡ n
    → ok n t.day ≡ false
    → contains n (write_row ok w t).failed ≡ true
unfolding write_row contains
contains-write_row_refused n ok w t e h = rw (e, h) (ground (arith, e, eqb_ℤ_iff n n))

-- A node one of whose rows is refused is one of the failed ones.
contains-refused :
    (n : ℤ) (day : String) (ok : ℤ → String → Bool) (ts : List TrafficRow) (w : Written)
    → ok n day ≡ false
    → is_sent n day ts ≡ true
    → contains n (write_traffic ok w ts).failed ≡ true
unfolding write_traffic is_sent
contains-refused n day ok [] w h e = absurd (ground arith)
contains-refused n day ok (t ∷ ts) w h e =
    elim (Bool-cases (eqb_ℤ t.node_id n && str_eq t.day day)) [
      | inl here ↦
          let day_is : t.day ≡ day = (str_eq_iff t.day day).0 (ground arith) in
          contains-write_traffic_keeps n ok ts (write_row ok w t) (
            contains-write_row_refused n ok w t ((eqb_ℤ_iff t.node_id n).0 (ground arith))
              (ap (ok n) day_is ∙ h))
      | inr other ↦ contains-refused n day ok ts (write_row ok w t) h (ground arith)
    ]

pub lookup-drain :
    (F : Floats) (n : ℤ) (st : Assoc ℤ (NodeState F)) (s : NodeState F)
    → lookup n st ≡ some s
    → lookup n (drain F st) ≡ some (drained F s)
unfolding drain lookup
lookup-drain F n [] s e = absurd (ground arith)
lookup-drain F n ((k, t) ∷ st) s e = elim (Bool-cases (eqb_ℤ k n)) [
  | inl same ↦ rw same (ap (λ u. some (drained F u)) {x = t} {y = s} (ground arith))
  | inr other ↦ rw other (lookup-drain F n st s (ground arith))
]

module _ (F : Floats) (n : ℤ) (ans : Answers) (db : Db F) (p : Pipeline F) where
  abbrev pub written : Written
  written =
      write_traffic ans.traffic_ok (record { table = db.traffic; failed = []; failures = 0 })
        (traffic_rows F p.st)

  commit_seq-db :
      ans.db_up ≡ true
      → (flush F ans db p).0.commit_seq
        ≡ (persist_seqs F ans.seq_ok written.failed db.commit_seq (drain F p.st)).0
  unfolding flush
  commit_seq-db h = rw (h, flush) refl

  -- Whatever the database answers, a flush never lowers the durable watermark of a node.
  pub flush-keeps_watermark :
      (w : ℤ) → lookup n db.commit_seq ≡ some w → Reached n w (flush F ans db p).0.commit_seq
  unfolding flush
  flush-keeps_watermark w e = elim (Bool-cases ans.db_up) [
    | inl h ↦ rw (commit_seq-db h) (
        persist_seqs-Reached n F ans.seq_ok written.failed (drain F p.st) db.commit_seq w
          (w, e, omega arith))
    | inr h ↦ rw (h, flush) (w, e, omega arith)
  ]

  held-flush :
      contains n written.failed ≡ true
      → lookup n (flush F ans db p).0.commit_seq ≡ lookup n db.commit_seq
  unfolding flush
  held-flush c = elim (Bool-cases ans.db_up) [
    | inl h ↦
        rw (commit_seq-db h)
          (persist_seqs-held n F ans.seq_ok written.failed (drain F p.st) db.commit_seq c)
    | inr h ↦ rw (h, flush) refl
  ]

  -- If a node holds bytes of a day, and the database refuses the node's row of that day, then a flush
  -- leaves the durable watermark of the node as it is, whatever else the database answers.
  pub flush-holds_back :
      (s : NodeState F) (day : String) (d : DayTraffic)
      → lookup n p.st ≡ some s
      → lookup day s.traf ≡ some d
      → HoldsBytes d
      → ans.traffic_ok n day ≡ false
      → lookup n (flush F ans db p).0.commit_seq ≡ lookup n db.commit_seq
  flush-holds_back s day d e e' holds refused = held-flush (
      contains-refused n day ans.traffic_ok (traffic_rows F p.st) _ refused
        (is_sent-traffic_rows F n day p.st s d e e' holds))

  -- A flush that finds the database up, loses no row of a node and writes its watermark without an
  -- error makes the node's number durable, if it is above the one last persisted.
  pub flush-reaches :
      (s : NodeState F) (w : ℤ)
      → lookup n p.st ≡ some s
      → s.last_persisted_seq <ℤ s.seq.last
      → lookup n db.commit_seq ≡ some w
      → (ans.db_up ≡ true) × ((d : String) → ans.traffic_ok n d ≡ true) × (ans.seq_ok n ≡ true)
      → Reached n s.seq.last (flush F ans db p).0.commit_seq
  unfolding moves_seq contains drained
  flush-reaches s w e behind ew (up, rows_ok, seq_ok) = rw (commit_seq-db up) (
      persist_seqs-reaches n F ans.seq_ok written.failed (drain F p.st) db.commit_seq (drained F s)
        w (lookup-drain F n p.st s e) moves (w, ew, omega arith))
    where
      moves : moves_seq F ans.seq_ok written.failed n (drained F s) ≡ true
      moves = ground (
        arith,
        contains-write_traffic n ans.traffic_ok (traffic_rows F p.st)
            (record { table = db.traffic; failed = []; failures = 0 }) rows_ok,
      )
