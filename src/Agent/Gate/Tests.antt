-- ===== src/Agent/Gate/Tests.antt =====
-- A panel that has record 1 connects while the log has the records 1 and 2.
use frp_panel.Prelude.{◌≡◌, refl, true, false, List, [], ◌∷◌, arith}
use frp_panel.Prelude.Int.{ℤ, pos}
use frp_panel.Agent.Wal.{TrafficRec}
use frp_panel.Agent.Wal.Recover.{above}
use frp_panel.Agent.Gate.{
  Link, Phase, start, replay, end_round, open_gate, sample, replayed, Reach, here, next,
}
use frp_panel.Agent.Gate.Order.{queued-above}
use frp_panel.Agent.Gate.Scan.{advance_all}
use frp_panel.Agent.Gate.Finished.{advance_all-start}
use frp_panel.Agent.Gate.Missed.{IsMissed, late_sample, dropped_sample}

abbrev numbered : ℤ → TrafficRec
numbered seq = record {
  seq = seq;
  at_ms = pos 0;
  node_rx_delta = pos 10;
  node_tx_delta = pos 20;
  proxies = [];
}

abbrev two_records : List TrafficRec
two_records = numbered (pos 1) ∷ numbered (pos 2) ∷ []

abbrev connected : Link
connected = start two_records (pos 2) (pos 1)

abbrev scanned : Link
scanned =
    replay (numbered (pos 2)) [] true
      (replay (numbered (pos 1)) (numbered (pos 2) ∷ []) true connected)

scanned-Reach : Reach connected scanned
unfolding start replay
scanned-Reach =
    next (next here (replayed (numbered (pos 1)) (numbered (pos 2) ∷ []) true refl refl))
      (replayed (numbered (pos 2)) [] true refl refl)

queued-above_example : scanned.queued ≡ above (pos 1) scanned.log
unfolding start replay
queued-above_example =
    queued-above two_records (pos 2) (pos 1) (omega arith) (omega arith) (omega arith) scanned
      scanned-Reach refl refl

-- a replay whose last scan sent nothing
abbrev quiet : Link
quiet = record (start [] (pos 2) (pos 2)) { unread = [] }

late_sample_example :
    let m =
      sample
        (numbered (pos 4))
        true
        (open_gate (sample (numbered (pos 3)) true (end_round quiet))) in
    Reach quiet m × IsMissed quiet (numbered (pos 3)) (numbered (pos 4)) (pos 2) m
unfolding start
late_sample_example =
    late_sample quiet (numbered (pos 3)) (numbered (pos 4)) (pos 2) refl (omega arith) (omega arith)
      true refl refl refl

abbrev live_link : Link
live_link = record quiet { phase = Phase.live }

dropped_sample_example :
    let m = sample (numbered (pos 4)) true (sample (numbered (pos 3)) false live_link) in
    Reach live_link m × IsMissed live_link (numbered (pos 3)) (numbered (pos 4)) (pos 2) m
unfolding start
dropped_sample_example =
    dropped_sample live_link (numbered (pos 3)) (numbered (pos 4)) (pos 2) refl (omega arith)
      (omega arith) refl

advance_all-start_example :
    let l = advance_all 7 connected in
    (l.phase ≡ Phase.live) × (l.queued ≡ above (pos 1) two_records)
advance_all-start_example =
    advance_all-start two_records (pos 2) (pos 1) 7 (omega arith) (omega arith) (omega arith)
      (omega arith)
