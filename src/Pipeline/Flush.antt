-- ===== src/Pipeline/Flush.antt =====
-- `flush` of internal/panel/pipeline.go, and the three statements of internal/panel/store_metrics.go
-- and internal/panel/store.go that it runs. What the database answers is an argument.
use Prim.Native.String.{String}
use frp_panel.Prelude.{
  ℕ, ◌+◌, Bool, true, false, not, ◌&&◌, ◌||◌, none, some, List, [], ◌∷◌, ◌++◌, if◌then◌else◌, ltb,
}
use frp_panel.Prelude.Int.{ℤ, pos, ltb_ℤ, eqb_ℤ, ◌+ℤ◌}
use frp_panel.Prelude.Assoc.{Assoc, lookup, insert, int_eq, pair_eq, string_eq}
use frp_panel.Metrics.Float.{Floats}
use frp_panel.Metrics.Minute.{empty_agg, avg_cpu, avg_mem}
use frp_panel.Pipeline.State.{Pipeline, NodeState, DayTraffic}

pub record MinuteRow (F : Floats) : Type 0 where
  pub node_id : ℤ
  pub ts : ℤ
  pub cpu_avg : F.Float
  pub mem_avg : F.Float
  pub rx_peak : ℤ
  pub tx_peak : ℤ

-- one call of `IncrTrafficDaily`
pub record TrafficRow : Type 0 where
  pub node_id : ℤ
  pub day : String
  pub d : DayTraffic

-- the tables `metrics_minutely`, `traffic_daily` and the column `nodes.last_commit_seq`
pub record Db (F : Floats) : Type 0 where
  pub minutely : Assoc (ℤ × ℤ) (MinuteRow F)
  pub traffic : Assoc (ℤ × String) DayTraffic
  pub commit_seq : Assoc ℤ ℤ

-- which statements succeed
pub record Answers : Type 0 where
  pub db_up : Bool
  pub minutely_ok : Bool
  pub traffic_ok : ℤ → String → Bool
  pub seq_ok : ℤ → Bool

-- A sum out of the column's range is an error of the statement, so it is no case of success.
unfoldable pub add_row : DayTraffic → DayTraffic → DayTraffic
add_row d x = record {
  node_rx = d.node_rx +ℤ x.node_rx;
  node_tx = d.node_tx +ℤ x.node_tx;
  tun_in = d.tun_in +ℤ x.tun_in;
  tun_out = d.tun_out +ℤ x.tun_out;
}

-- INSERT … ON DUPLICATE KEY UPDATE c = c + VALUES(c)
unfoldable pub incr_traffic_daily :
    Assoc (ℤ × String) DayTraffic → TrafficRow → Assoc (ℤ × String) DayTraffic
incr_traffic_daily rows t =
    insert (t.node_id, t.day)
      (elim (lookup (t.node_id, t.day) rows) [ none ↦ t.d | some d ↦ add_row d t.d ]) rows

-- UPDATE nodes SET last_commit_seq=? WHERE id=? AND last_commit_seq<?
unfoldable pub set_node_last_commit_seq : Assoc ℤ ℤ → ℤ → ℤ → Assoc ℤ ℤ
set_node_last_commit_seq rows node seq = elim (lookup node rows) [
  | none ↦ rows
  | some old ↦ if ltb_ℤ old seq then insert node seq rows else rows
]

-- what a flush takes out of a node: its new state
unfoldable pub drained : (F : Floats) → NodeState F → NodeState F
drained F s = record s { agg = empty_agg F; traf = [] }

-- `d.nodeRx|d.nodeTx|d.tunIn|d.tunOut != 0`
unfoldable pub has_traffic : DayTraffic → Bool
has_traffic d = not (
    eqb_ℤ d.node_rx (pos 0)
    && eqb_ℤ d.node_tx (pos 0)
    && eqb_ℤ d.tun_in (pos 0)
    && eqb_ℤ d.tun_out (pos 0))

unfoldable pub rows_of_days : ℤ → Assoc String DayTraffic → List TrafficRow
rows_of_days node [] = []
rows_of_days node ((day, d) ∷ traf) =
    let rest = rows_of_days node traf in
    if has_traffic d then record { node_id = node; day = day; d = d } ∷ rest else rest

-- the loop over the states
unfoldable pub traffic_rows : (F : Floats) → Assoc ℤ (NodeState F) → List TrafficRow
traffic_rows F [] = []
traffic_rows F ((node, s) ∷ st) = rows_of_days node s.traf ++ traffic_rows F st

unfoldable pub drain : (F : Floats) → Assoc ℤ (NodeState F) → Assoc ℤ (NodeState F)
unfolding drained
drain F [] = []
drain F ((node, s) ∷ st) = (node, drained F s) ∷ drain F st

unfoldable pub minute_rows : (F : Floats) → Assoc ℤ (NodeState F) → List (MinuteRow F)
minute_rows F [] = []
minute_rows F ((node, s) ∷ st) =
    let rest = minute_rows F st in
    if ltb 0 s.agg.count
    then record {
      node_id = node;
      ts = s.agg.minute_unix;
      cpu_avg = avg_cpu F s.agg;
      mem_avg = avg_mem F s.agg;
      rx_peak = s.agg.peak_rx_bps;
      tx_peak = s.agg.peak_tx_bps;
    }
      ∷ rest
    else rest

-- `BatchUpsertMinutely`, in one transaction
unfoldable pub upsert_minutely :
    (F : Floats) → Assoc (ℤ × ℤ) (MinuteRow F) → List (MinuteRow F) → Assoc (ℤ × ℤ) (MinuteRow F)
upsert_minutely F table [] = table
upsert_minutely F table (r ∷ rs) = upsert_minutely F (insert (r.node_id, r.ts) r table) rs

-- the loop over `trafRows`: the table, the nodes of which a row failed, the failures
pub record Written : Type 0 where
  pub table : Assoc (ℤ × String) DayTraffic
  pub failed : List ℤ
  pub failures : ℕ

unfoldable pub write_row : (ℤ → String → Bool) → Written → TrafficRow → Written
write_row traffic_ok w t =
    if traffic_ok t.node_id t.day
    then record w { table = incr_traffic_daily w.table t }
    else record w { failed = t.node_id ∷ w.failed; failures = w.failures + 1 }

unfoldable pub write_traffic : (ℤ → String → Bool) → Written → List TrafficRow → Written
write_traffic traffic_ok w [] = w
write_traffic traffic_ok w (t ∷ ts) = write_traffic traffic_ok (write_row traffic_ok w t) ts

unfoldable pub contains : ℤ → List ℤ → Bool
contains a [] = false
contains a (x ∷ xs) = eqb_ℤ x a || contains a xs

-- Is the watermark of the node written, without an error?
unfoldable pub moves_seq : (F : Floats) → (ℤ → Bool) → List ℤ → ℤ → NodeState F → Bool
moves_seq F seq_ok failed node s =
    not (contains node failed) && ltb_ℤ s.last_persisted_seq s.seq.last && seq_ok node

-- the last loop: the watermarks in the database, and `lastPersistedSeq`
unfoldable pub persist_seqs :
    (F : Floats)
    → (ℤ → Bool)
    → List ℤ
    → Assoc ℤ ℤ
    → Assoc ℤ (NodeState F)
    → Assoc ℤ ℤ × Assoc ℤ (NodeState F)
persist_seqs F seq_ok failed rows [] = (rows, [])
persist_seqs F seq_ok failed rows ((node, s) ∷ st) =
    let moved = moves_seq F seq_ok failed node s in
    let (rows', st') =
      persist_seqs F seq_ok failed
        (if moved then set_node_last_commit_seq rows node s.seq.last else rows) st in
    (rows', (node, if moved then record s { last_persisted_seq = s.seq.last } else s) ∷ st')

is_empty : {A : Type 0} → List A → Bool
is_empty [] = true
is_empty (x ∷ xs) = false

unfoldable pub flush : (F : Floats) → Answers → Db F → Pipeline F → Db F × Pipeline F
unfolding is_empty
flush F ans db p =
    let rows = minute_rows F p.st in
    let traf_rows = traffic_rows F p.st in
    let st = drain F p.st in
    if not ans.db_up
    then (
      db,
      record p {
        st = st;
        dropped_batches =
            if not (is_empty rows) || not (is_empty traf_rows)
            then p.dropped_batches + 1
            else p.dropped_batches;
      },
    )
    else let minutely_fails = not (is_empty rows) && not ans.minutely_ok in
      let w =
        write_traffic ans.traffic_ok (record { table = db.traffic; failed = []; failures = 0 })
          traf_rows in
      let (seqs, st') = persist_seqs F ans.seq_ok w.failed db.commit_seq st in
      (
        record {
          minutely = if minutely_fails then db.minutely else upsert_minutely F db.minutely rows;
          traffic = w.table;
          commit_seq = seqs;
        },
        record p {
          st = st';
          dropped_batches = p.dropped_batches + (if minutely_fails then 1 else 0) + w.failures;
        },
      )
