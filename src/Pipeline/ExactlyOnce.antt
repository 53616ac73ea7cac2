-- ===== src/Pipeline/ExactlyOnce.antt =====
-- Every report is counted once: what is written of a node is the traffic of its reports with a new
-- sequence number, however reports, reconnections and flushes interleave.
use Prim.Native.String.{String}
use frp_panel.Prelude.{
  ◌≡◌, refl, ap, ◌∙◌, true, none, some, Option, List, [], ◌∷◌, arith, if◌then◌else◌, Option-cases,
  inl, inr, ◌&&◌,
}
use frp_panel.Prelude.Int.{
  ℤ, pos, negsuc, ◌+ℤ◌, ◌+64◌, ◌≤ℤ◌, wrap64, ltb_ℤ, eqb_ℤ, eqb_ℤ_iff, int_laws, parts, wrap64-add,
  +ℤ_assoc,
}
use frp_panel.Prelude.Assoc.{lookup, int_eq, lookup-insert}
use frp_panel.Prelude.Sum.{wrap64-+64_zero}
use frp_panel.Metrics.Float.{Floats}
use frp_panel.Metrics.Seq.{new_seq_tracker}
use frp_panel.Protocol.Message.{Metrics}
use frp_panel.Pipeline.State.{Pipeline, NodeState, commit_seq, init_node, init_state, fresh_state}
use frp_panel.Pipeline.Account.{account}
use frp_panel.Pipeline.Flush.{Db, Answers, flush, traffic_rows}
use frp_panel.Pipeline.Ledger.{Scope, durable, pending, ledger, pending-insert_same}
use frp_panel.Pipeline.Drain.{lost_none}
use frp_panel.Pipeline.Steps.{
  report_bytes, commit_seq-account, ledger-account, pending-flush, durable-flush, commit_seq-flush,
}

-- what happens to the pipeline, in order
pub data Event (F : Floats) : Type 0 where
  report : ℤ → ℤ → Metrics F → Event F
  connect : ℤ → ℤ → Event F
  flush_with : Answers → Event F

module _ (F : Floats) (day : ℤ → String) where
  unfoldable pub step : Event F → Db F × Pipeline F → Db F × Pipeline F
  step (report now_ms node m) (db, p) = (db, (account F day p now_ms node m).pipe)
  step (connect node last_seq) (db, p) = (db, init_node F p node last_seq)
  step (flush_with ans) (db, p) = flush F ans db p

  unfoldable pub run : List (Event F) → Db F × Pipeline F → Db F × Pipeline F
  run [] s = s
  run (e ∷ es) s = run es (step e s)

module _ (F : Floats) (c : Scope) (n : ℤ) where
  -- The traffic that the events bring in for a node, from its watermark on: a report counts if its
  -- number is above the watermark, which it then becomes.
  unfoldable pub credit : ℤ → List (Event F) → ℤ
  credit last [] = pos 0
  credit last (report now_ms node m ∷ es) =
      let is_new = eqb_ℤ node n && ltb_ℤ last m.seq in
      (if is_new then report_bytes F c m else pos 0) +ℤ credit (if is_new then m.seq else last) es
  credit last (connect node last_seq ∷ es) =
      credit (if eqb_ℤ node n && ltb_ℤ last last_seq then last_seq else last) es
  credit last (flush_with ans ∷ es) = credit last es

module _ (F : Floats) (n : ℤ) where
  -- The database is up at each flush and takes the node's rows; watermarks are not negative.
  abbrev pub Smooth : List (Event F) → Type 0
  Smooth [] = Unit {0}
  Smooth (report now_ms node m ∷ es) = Smooth es
  Smooth (connect node last_seq ∷ es) = (pos 0 ≤ℤ last_seq) × Smooth es
  Smooth (flush_with ans ∷ es) =
      ((ans.db_up ≡ true) × ((day : String) → ans.traffic_ok n day ≡ true)) × Smooth es

abbrev tracked : (F : Floats) → Option (NodeState F) → ℤ
tracked F o = elim o [ none ↦ pos 0 | some s ↦ s.seq.last ]

init_last :
    (F : Floats) (seq : ℤ) (o : Option (NodeState F))
    → pos 0 ≤ℤ seq
    → (init_state F seq o).seq.last ≡ (if ltb_ℤ (tracked F o) seq then seq else tracked F o)
unfolding init_state fresh_state new_seq_tracker
init_last F (pos n) none h = ground arith
init_last F (negsuc n) none h = absurd (omega arith)
init_last F seq (some s) h = ground arith

module _ (F : Floats) (n : ℤ) (p : Pipeline F) (k seq : ℤ) where
  commit_seq-init_node :
      pos 0 ≤ℤ seq
      → commit_seq F (init_node F p k seq) n
        ≡ (if eqb_ℤ k n && ltb_ℤ (commit_seq F p n) seq then seq else commit_seq F p n)
  unfolding commit_seq init_node
  commit_seq-init_node h =
      rw (commit_seq, lookup-insert k n (init_state F seq (lookup k p.st)) p.st)
        (ground (arith, eqb_ℤ_iff k n, init_last F seq (lookup k p.st) h))

  pending-init_node : (c : Scope) → pending c F n (init_node F p k seq).st ≡ pending c F n p.st
  unfolding init_node init_state fresh_state
  pending-init_node c = elim (Option-cases (lookup k p.st)) [
    | inl h ↦ rw h (
        pending-insert_same c F n k p.st (fresh_state F seq) (fresh_state F seq) refl
          (inr (h, refl)))
    | inr (s, h) ↦
        rw h (pending-insert_same c F n k p.st s (init_state F seq (some s)) (ground arith) (inl h))
  ]

module _ (F : Floats) (day : ℤ → String) (c : Scope) (n : ℤ) where
  -- Two additions to an int64 are one.
  +64_twice : (a x y : ℤ) → a +64 x +64 y ≡ a +64 (x +ℤ y)
  unfolding ◌+64◌
  +64_twice a x y = wrap64-add (a +ℤ x) y ∙ ap wrap64 (+ℤ_assoc a x y)

  kept :
      (ans : Answers) (db : Db F) (p : Pipeline F)
      → (ans.db_up ≡ true) × ((d : String) → ans.traffic_ok n d ≡ true)
      → durable c n (flush F ans db p).0.traffic +ℤ pending c F n (flush F ans db p).1.st
        ≡ durable c n db.traffic +ℤ pending c F n p.st
  kept ans db p h = omega (
    int_laws,
    parts (pending-flush F c n ans db p),
    parts (durable-flush F c n ans db p h.0),
    parts (lost_none c n ans.traffic_ok (traffic_rows F p.st) h.1),
  )

  ledger-run :
      (es : List (Event F)) (s : Db F × Pipeline F)
      → Smooth F n es
      → let s' = run F day es s in
        ledger c F n s'.0 s'.1 ≡ ledger c F n s.0 s.1 +64 credit F c n (commit_seq F s.1 n) es
  unfolding run step credit ledger
  ledger-run [] (db, p) h = wrap64-+64_zero _
  ledger-run (report now_ms node m ∷ es) (db, p) h =
      ledger-run es _ h
      ∙ rw (ledger-account F day p now_ms node m n c db, commit_seq-account F day p now_ms node m n)
          (+64_twice _ _ _)
  ledger-run (connect node last_seq ∷ es) (db, p) h =
      ledger-run es _ h.1
      ∙ rw (commit_seq-init_node F n p node last_seq h.0) (
          ap
            (λ t.
              t
              +64 credit F c n
                  (if eqb_ℤ node n && ltb_ℤ (commit_seq F p n) last_seq
                    then last_seq
                    else commit_seq F p n)
                  es)
            (ap (λ t. wrap64 (durable c n db.traffic +ℤ t))
              (pending-init_node F n p node last_seq c)))
  ledger-run (flush_with ans ∷ es) (db, p) h =
      ledger-run es _ h.1
      ∙ rw (commit_seq-flush F n ans db p)
          (ap (λ t. wrap64 t +64 credit F c n (commit_seq F p n) es) (kept ans db p h.0))

  -- Whatever reports, reconnections and flushes come in whatever order: if no watermark that a
  -- reconnection brings is negative and each flush finds the database up and every write of the
  -- node's traffic succeeding, then after one more such flush the table holds, as an int64, what the
  -- node had written and held at the start and the bytes of each report with a new number, counted
  -- once.
  pub exactly_once :
      (es : List (Event F)) (ans : Answers) (db : Db F) (p : Pipeline F)
      → Smooth F n es
      → (ans.db_up ≡ true) × ((d : String) → ans.traffic_ok n d ≡ true)
      → let s = run F day es (db, p) in
        wrap64 (durable c n (flush F ans s.0 s.1).0.traffic)
        ≡ ledger c F n db p +64 credit F c n (commit_seq F p n) es
  unfolding ledger
  exactly_once es ans db p h good =
      let s = run F day es (db, p) in
      ap wrap64
        (omega (int_laws, parts (kept ans s.0 s.1 good), parts (pending-flush F c n ans s.0 s.1)))
      ∙ ledger-run es (db, p) h
