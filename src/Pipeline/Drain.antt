-- ===== src/Pipeline/Drain.antt =====
-- What a flush takes out of the buffers, and where it goes.
use Prim.Native.String.{String}
use frp_panel.Prelude.{
  ◌≡◌, refl, sym, ap, ap₂, ◌∙◌, Bool, true, false, none, some, List, [], ◌∷◌, ◌++◌, arith,
  if◌then◌else◌, Bool-cases, inl, inr,
}
use frp_panel.Prelude.Int.{ℤ, pos, ◌+ℤ◌, eqb_ℤ, eqb_ℤ_iff, int_laws, parts, zero-+ℤ, +ℤ-zero}
use frp_panel.Prelude.Assoc.{Assoc, lookup, int_eq}
use frp_panel.Prelude.Sum.{sum_of}
use frp_panel.Metrics.Float.{Floats}
use frp_panel.Pipeline.State.{DayTraffic, NodeState}
use frp_panel.Pipeline.Flush.{
  TrafficRow, Written, write_row, write_traffic, rows_of_days, traffic_rows, has_traffic, drain,
  persist_seqs, moves_seq, set_node_last_commit_seq,
}
use frp_panel.Pipeline.Ledger.{
  Scope, node_rx, node_tx, tun_in, tun_out, bytes, buffered, durable, pending, rows_total, if_node,
  if_node-+ℤ, if_node-zero, durable-incr,
}

no_bytes : (c : Scope) (d : DayTraffic) → has_traffic d ≡ false → bytes c d ≡ pos 0
unfolding has_traffic bytes
no_bytes node_rx d h = (eqb_ℤ_iff d.node_rx (pos 0)).0 (ground arith)
no_bytes node_tx d h = (eqb_ℤ_iff d.node_tx (pos 0)).0 (ground arith)
no_bytes tun_in d h = (eqb_ℤ_iff d.tun_in (pos 0)).0 (ground arith)
no_bytes tun_out d h = (eqb_ℤ_iff d.tun_out (pos 0)).0 (ground arith)

module _ (c : Scope) (n : ℤ) where
  rows_total-append :
      (ts us : List TrafficRow) → rows_total c n (ts ++ us) ≡ rows_total c n ts +ℤ rows_total c n us
  unfolding rows_total
  rows_total-append [] us = omega int_laws
  rows_total-append (t ∷ ts) us = omega (int_laws, parts (rows_total-append ts us))

  rows_total-rows_of_days :
      (node : ℤ) (traf : Assoc String DayTraffic)
      → rows_total c n (rows_of_days node traf) ≡ if_node n node (buffered c traf)
  unfolding rows_total rows_of_days buffered sum_of
  rows_total-rows_of_days node [] = ground arith
  rows_total-rows_of_days node ((day, d) ∷ traf) = elim (Bool-cases (has_traffic d)) [
    | inl h ↦ rw h (
        ap (λ t. if_node n node (bytes c d) +ℤ t) (rows_total-rows_of_days node traf)
        ∙ sym (if_node-+ℤ n node (bytes c d) (buffered c traf)))
    | inr h ↦
        rw (h, no_bytes c d h)
          (rows_total-rows_of_days node traf
            ∙ ap (if_node n node) (sym (zero-+ℤ (buffered c traf))))
  ]

  -- The rows of a flush are what the pipeline held.
  pub rows_total-traffic_rows :
      (F : Floats) (st : Assoc ℤ (NodeState F))
      → rows_total c n (traffic_rows F st) ≡ pending c F n st
  unfolding rows_total traffic_rows pending sum_of
  rows_total-traffic_rows F [] = refl
  rows_total-traffic_rows F ((node, s) ∷ st) =
      rows_total-append (rows_of_days node s.traf) (traffic_rows F st)
      ∙ ap₂ ◌+ℤ◌ (rows_total-rows_of_days node s.traf) (rows_total-traffic_rows F st)

  pub pending-drain : (F : Floats) (st : Assoc ℤ (NodeState F)) → pending c F n (drain F st) ≡ pos 0
  unfolding drain pending sum_of buffered
  pending-drain F [] = refl
  pending-drain F ((node, s) ∷ st) =
      ap₂ ◌+ℤ◌ (if_node-zero n node) (pending-drain F st) ∙ zero-+ℤ (pos 0)

  pub pending-persist_seqs :
      (F : Floats) (ok : ℤ → Bool) (failed : List ℤ) (rows : Assoc ℤ ℤ) (st : Assoc ℤ (NodeState F))
      → pending c F n (persist_seqs F ok failed rows st).1 ≡ pending c F n st
  unfolding persist_seqs pending sum_of
  pending-persist_seqs F ok failed rows [] = refl
  pending-persist_seqs F ok failed rows ((node, s) ∷ st) =
      ap₂ ◌+ℤ◌ (ap (λ t. if_node n node (buffered c t)) same)
        (pending-persist_seqs F ok failed rest st)
    where
      moved : Bool
      moved = moves_seq F ok failed node s

      rest : Assoc ℤ ℤ
      rest = if moved then set_node_last_commit_seq rows node s.seq.last else rows

      same : (if moved then record s { last_persisted_seq = s.seq.last } else s).traf ≡ s.traf
      same = ground arith

  unfoldable pub lost_row : (ℤ → String → Bool) → TrafficRow → ℤ
  lost_row ok t = if ok t.node_id t.day then pos 0 else if_node n t.node_id (bytes c t.d)

  -- the traffic of the rows that the database refused
  unfoldable pub lost : (ℤ → String → Bool) → List TrafficRow → ℤ
  lost ok [] = pos 0
  lost ok (t ∷ ts) = lost_row ok t +ℤ lost ok ts

  durable-write_row :
      (ok : ℤ → String → Bool) (w : Written) (t : TrafficRow)
      → durable c n (write_row ok w t).table +ℤ lost_row ok t
        ≡ durable c n w.table +ℤ if_node n t.node_id (bytes c t.d)
  unfolding write_row lost_row
  durable-write_row ok w t = elim (Bool-cases (ok t.node_id t.day)) [
    | inl h ↦ rw h (+ℤ-zero _ ∙ durable-incr c n w.table t)
    | inr h ↦ rw h refl
  ]

  -- A row reaches the table, or it is lost.
  pub durable-write_traffic :
      (ok : ℤ → String → Bool) (w : Written) (ts : List TrafficRow)
      → durable c n (write_traffic ok w ts).table +ℤ lost ok ts
        ≡ durable c n w.table +ℤ rows_total c n ts
  unfolding write_traffic lost rows_total
  durable-write_traffic ok w [] = refl
  durable-write_traffic ok w (t ∷ ts) = omega (
    int_laws,
    parts (durable-write_row ok w t),
    parts (durable-write_traffic ok (write_row ok w t) ts),
  )

  -- No row is lost where every statement succeeds.
  pub lost_none :
      (ok : ℤ → String → Bool) (ts : List TrafficRow)
      → ((day : String) → ok n day ≡ true)
      → lost ok ts ≡ pos 0
  unfolding lost lost_row
  lost_none ok [] h = refl
  lost_none ok (t ∷ ts) h =
      ap₂ ◌+ℤ◌ (none_here (eqb_ℤ t.node_id n) refl) (lost_none ok ts h) ∙ zero-+ℤ (pos 0)
    where
      none_here :
          (b : Bool)
          → eqb_ℤ t.node_id n ≡ b
          → (if ok t.node_id t.day then pos 0 else if_node n t.node_id (bytes c t.d)) ≡ pos 0
      none_here true e = rw ((eqb_ℤ_iff t.node_id n).0 e, h t.day)
      none_here false e = rw e (ground arith)

-- A flush leaves the trackers alone.
module _ (F : Floats) (n : ℤ) where
  abbrev pub last_in : Assoc ℤ (NodeState F) → ℤ
  last_in st = elim (lookup n st) [ none ↦ pos 0 | some s ↦ s.seq.last ]

  last_in-cons :
      (k : ℤ) (s : NodeState F) (st : Assoc ℤ (NodeState F))
      → last_in ((k, s) ∷ st) ≡ (if eqb_ℤ k n then s.seq.last else last_in st)
  unfolding lookup
  last_in-cons k s st = ground arith

  pub last_in-drain : (st : Assoc ℤ (NodeState F)) → last_in (drain F st) ≡ last_in st
  unfolding drain
  last_in-drain [] = refl
  last_in-drain ((k, s) ∷ st) =
      last_in-cons k _ (drain F st)
      ∙ ap (λ t. if eqb_ℤ k n then s.seq.last else t) (last_in-drain st)
      ∙ sym (last_in-cons k s st)

  pub last_in-persist_seqs :
      (ok : ℤ → Bool) (failed : List ℤ) (rows : Assoc ℤ ℤ) (st : Assoc ℤ (NodeState F))
      → last_in (persist_seqs F ok failed rows st).1 ≡ last_in st
  unfolding persist_seqs
  last_in-persist_seqs ok failed rows [] = refl
  last_in-persist_seqs ok failed rows ((k, s) ∷ st) =
      last_in-cons k s' _
      ∙ ap₂ (λ a t. if eqb_ℤ k n then a else t) {x = s'.seq.last} {y = s.seq.last} (ground arith)
          (last_in-persist_seqs ok failed rest st)
      ∙ sym (last_in-cons k s st)
    where
      moved : Bool
      moved = moves_seq F ok failed k s

      rest : Assoc ℤ ℤ
      rest = if moved then set_node_last_commit_seq rows k s.seq.last else rows

      s' : NodeState F
      s' = if moved then record s { last_persisted_seq = s.seq.last } else s
