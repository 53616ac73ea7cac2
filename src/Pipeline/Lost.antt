-- ===== src/Pipeline/Lost.antt =====
-- Traffic that no replay brings back: a flush drops a node's rows and holds its watermark back, and
-- the next flush moves the watermark past them.
use Prim.Native.String.{String}
use frp_panel.Prelude.{
  ◌≡◌, refl, ap, ap₂, subst, ◌∙◌, Bool, true, false, some, List, [], ◌∷◌, arith, if◌then◌else◌,
  Bool-cases, inl, inr,
}
use frp_panel.Prelude.Int.{
  ℤ, ◌+ℤ◌, ◌+64◌, wrap64, ◌≤ℤ◌, ◌<ℤ◌, leb_ℤ, eqb_ℤ, eqb_ℤ_iff, int_laws, parts, +ℤ-zero,
}
use frp_panel.Prelude.Assoc.{Assoc, lookup, int_eq, lookup-insert}
use frp_panel.Metrics.Float.{Floats}
use frp_panel.Protocol.Message.{Metrics}
use frp_panel.Pipeline.State.{NodeState, Pipeline, commit_seq, get}
use frp_panel.Pipeline.Account.{account, fold_sample, tunnels_of, sample_time}
use frp_panel.Pipeline.Flush.{
  Db, Answers, TrafficRow, traffic_rows, contains, moves_seq, persist_seqs,
  set_node_last_commit_seq, drain, drained, flush,
}
use frp_panel.Pipeline.Ledger.{Scope, bytes, durable, rows_total, ledger, if_node}
use frp_panel.Pipeline.Drain.{lost, lost_row, rows_total-traffic_rows}
use frp_panel.Pipeline.Steps.{
  report_bytes, pending-flush, durable-flush, commit_seq-flush, account_new,
}
use frp_panel.Pipeline.ExactlyOnce.{report, step, run, credit, exactly_once}
use frp_panel.Pipeline.Watermark.{
  Reached, written, lookup-drain, flush-keeps_watermark, flush-reaches,
}

-- Every row of the node is lost where each is refused.
lost_all :
    (c : Scope) (n : ℤ) (ok : ℤ → String → Bool) (ts : List TrafficRow)
    → ((day : String) → ok n day ≡ false)
    → lost c n ok ts ≡ rows_total c n ts
unfolding lost lost_row rows_total
lost_all c n ok [] h = refl
lost_all c n ok (t ∷ ts) h = elim (Bool-cases (eqb_ℤ t.node_id n)) [
  | inl same ↦
      rw ((eqb_ℤ_iff t.node_id n).0 same, h t.day)
        (ap (λ x. if_node n n (bytes c t.d) +ℤ x) (lost_all c n ok ts h))
  | inr other ↦ ground (arith, lost_all c n ok ts h)
]

moves_seq-failed :
    (F : Floats) (n k : ℤ) (ok : ℤ → Bool) (failed : List ℤ) (s : NodeState F)
    → contains n failed ≡ true
    → eqb_ℤ k n ≡ true
    → moves_seq F ok failed k s ≡ false
unfolding moves_seq
moves_seq-failed F n k ok failed s h same = ground (arith, eqb_ℤ_iff k n)

-- A node that is held back keeps its state.
lookup-persist_held :
    (F : Floats) (n : ℤ) (ok : ℤ → Bool) (failed : List ℤ) (st : Assoc ℤ (NodeState F))
    (rows : Assoc ℤ ℤ)
    → contains n failed ≡ true
    → lookup n (persist_seqs F ok failed rows st).1 ≡ lookup n st
unfolding persist_seqs lookup
lookup-persist_held F n ok failed [] rows h = refl
lookup-persist_held F n ok failed ((k, s) ∷ st) rows h = elim (Bool-cases (eqb_ℤ k n)) [
  | inl same ↦ rw (same, moves_seq-failed F n k ok failed s h same) refl
  | inr other ↦ rw other (
      lookup-persist_held F n ok failed st
        (if moves_seq F ok failed k s then set_node_last_commit_seq rows k s.seq.last else rows) h)
]

module _ (F : Floats) (day : ℤ → String) (n : ℤ) (db : Db F) (p : Pipeline F) (s : NodeState F)
    (refusing : Answers) (now_ms : ℤ) (m : Metrics F) where
  -- the panel after a flush in which the node's rows are refused, and one more report
  abbrev pub refused : Db F × Pipeline F
  refused = flush F refusing db p

  abbrev pub reported : Pipeline F
  reported = (account F day refused.1 now_ms n m).pipe

  abbrev pub Refused : Type 0
  Refused =
      (lookup n p.st ≡ some s)
      × (refusing.db_up ≡ true)
      × ((d : String) → refusing.traffic_ok n d ≡ false)
      × (contains n (written F n refusing db p).failed ≡ true)

  lookup-refused : Refused → lookup n refused.1.st ≡ some (drained F s)
  unfolding flush
  lookup-refused (e, up, none_ok, c) =
      rw (up, flush)
        (lookup-persist_held F n refusing.seq_ok (written F n refusing db p).failed (drain F p.st)
            db.commit_seq c
          ∙ lookup-drain F n p.st s e)

  seq_above : Refused → commit_seq F p n <ℤ m.seq → leb_ℤ m.seq (commit_seq F refused.1 n) ≡ false
  seq_above r h = rw (commit_seq-flush F n refusing db p) (ground arith)

  get-refused : Refused → get F refused.1 n ≡ drained F s
  unfolding get
  get-refused r = rw (get, lookup-refused r) refl

  last-known : Refused → commit_seq F p n ≡ s.seq.last
  unfolding commit_seq
  last-known (e, up, none_ok, c) = rw (commit_seq, e) refl

  credit-report :
      (c : Scope)
      → Refused
      → commit_seq F p n <ℤ m.seq
      → credit F c n (commit_seq F refused.1 n) (report now_ms n m ∷ []) ≡ report_bytes F c m
  unfolding credit
  credit-report c r h =
      rw (commit_seq-flush F n refusing db p)
        (ground (arith, eqb_ℤ_iff n n, +ℤ-zero (report_bytes F c m)))

  lookup-reported :
      Refused
      → commit_seq F p n <ℤ m.seq
      → (s' : NodeState F) × (lookup n reported.st ≡ some s')
        × (s'.seq.last ≡ m.seq)
        × (s'.last_persisted_seq ≡ s.last_persisted_seq)
  unfolding fold_sample drained
  lookup-reported r h =
      let got = get F refused.1 n in
      let t = tunnels_of F day refused.1 n m in
      let s' = fold_sample F day got (record { last = m.seq }) (sample_time F day now_ms m) m t in
      (
        s',
        rw
            (
              account_new F day refused.1 now_ms n m (seq_above r h),
              lookup-insert n n s' refused.1.st,
            )
            (ground (arith, eqb_ℤ_iff n n)),
        refl,
        ap (λ x. x.last_persisted_seq) {x = got} {y = drained F s} (get-refused r),
      )

  -- Nothing of the refused rows is in the table, and none is left in the buffers.
  nothing_written :
      (c : Scope) → Refused → ledger c F n refused.0 refused.1 ≡ wrap64 (durable c n db.traffic)
  unfolding ledger
  nothing_written c (e, up, none_ok, cf) = ap wrap64 (
      omega (
        int_laws,
        parts (pending-flush F c n refusing db p),
        parts (durable-flush F c n refusing db p up),
        parts (lost_all c n refusing.traffic_ok (traffic_rows F p.st) none_ok),
        parts (rows_total-traffic_rows c n F p.st),
      ))

  -- The database refuses each row of a node in a flush, of which there is at least one; a report
  -- with a new number comes; the next flush succeeds for the node. If the persisted number was not
  -- above the watermark and the node is in the database, then its durable watermark is at or above
  -- the new number, but the table has gained, as an int64, only the bytes of the last report.
  pub lost_for_good :
      (c : Scope) (well : Answers) (w : ℤ)
      → Refused
      → commit_seq F p n <ℤ m.seq
      → s.last_persisted_seq ≤ℤ s.seq.last
      → lookup n db.commit_seq ≡ some w
      → (well.db_up ≡ true) × ((d : String) → well.traffic_ok n d ≡ true) × (well.seq_ok n ≡ true)
      → let after = flush F well refused.0 reported in
        Reached n m.seq after.0.commit_seq
        × (wrap64 (durable c n after.0.traffic)
            ≡ wrap64 (durable c n db.traffic) +64 report_bytes F c m)
  unfolding run step
  lost_for_good c well w r h persisted ew good =
      let (s', e', seq', persisted') = lookup-reported r h in
      let (w', ew', up) = flush-keeps_watermark F n refusing db p w ew in
      (
        subst (λ q. Reached n q (flush F well refused.0 reported).0.commit_seq) seq'
            (flush-reaches F n well refused.0 reported s' w' e'
              (omega (arith, parts (last-known r), parts seq', parts persisted')) ew' good),
        exactly_once F day c n (report now_ms n m ∷ []) well refused.0 refused.1 tt (good.0, good.1)
            ∙ ap₂ ◌+64◌ (nothing_written c r) (credit-report c r h),
      )
