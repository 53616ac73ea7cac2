-- ===== src/Pipeline/Tests.antt =====
-- Runs of the pipeline, and its theorems at concrete inputs.
use Prim.Native.String.{String}
use frp_panel.Prelude.{ℕ, ◌≡◌, refl, true, false, List, [], ◌∷◌, arith}
use frp_panel.Prelude.Int.{ℤ, pos, wrap64, ◌+64◌}
use frp_panel.Metrics.Float.{Floats}
use frp_panel.Protocol.Message.{Metrics}
use frp_panel.Pipeline.State.{Pipeline, NodeState, commit_seq}
use frp_panel.Prelude.Assoc.{lookup, int_eq}
use frp_panel.Pipeline.Account.{account}
use frp_panel.Pipeline.Steps.{report_bytes}
use frp_panel.Pipeline.Watermark.{Reached, flush-holds_back}
use frp_panel.Pipeline.Lost.{lost_for_good}
use frp_panel.Pipeline.Flush.{
  Db, Answers, flush, contains, write_traffic, write_row, traffic_rows, rows_of_days, has_traffic,
}
use frp_panel.Metrics.Ring.{new_ring}
use frp_panel.Metrics.Minute.{empty_agg}
use frp_panel.Pipeline.Ledger.{tun_in, durable, ledger}
use frp_panel.Pipeline.ExactlyOnce.{Event, report, connect, flush_with, run, credit, exactly_once}

abbrev no_floats : Floats
no_floats = record {
  Float = Unit {0};
  zero_float = tt;
  add_float = λ _ _. tt;
  div_float = λ _ _. tt;
}

abbrev one_day : ℤ → String
one_day _ = "2024-01-01"

abbrev traffic_report : ℕ → ℕ → Metrics no_floats
traffic_report seq bytes = record {
  seq = pos seq;
  cpu = tt;
  mem = tt;
  mem_total = pos 0;
  net_rx_bps = pos 0;
  net_tx_bps = pos 0;
  net_rx_delta = pos 0;
  net_tx_delta = pos 0;
  frps_up = true;
  proxies =
      record {
        remote_port = pos 9000;
        proto = "tcp";
        status = "online";
        delta_in = pos bytes;
        delta_out = pos 0;
      }
      ∷ [];
  sampled_at = pos 1000;
  backfill = true;
}

abbrev all_well : Answers
all_well = record { db_up = true; minutely_ok = true; traffic_ok = λ _ _. true; seq_ok = λ _. true }

abbrev empty_db : Db no_floats
empty_db = record { minutely = []; traffic = []; commit_seq = (pos 1, pos 0) ∷ [] }

abbrev no_nodes : Pipeline no_floats
no_nodes = record { st = []; live = []; dropped_batches = 0 }

-- 10 bytes, the same report once more, a flush, a reconnection, and 20 bytes
abbrev script : List (Event no_floats)
script =
    report (pos 5) (pos 1) (traffic_report 1 10)
    ∷ report (pos 6) (pos 1) (traffic_report 1 10)
    ∷ flush_with all_well
    ∷ connect (pos 1) (pos 1)
    ∷ report (pos 7) (pos 1) (traffic_report 2 20)
    ∷ []

exactly_once_example :
    (let s = run no_floats one_day script (empty_db, no_nodes) in
      wrap64 (durable tun_in (pos 1) (flush no_floats all_well s.0 s.1).0.traffic))
    ≡ ledger tun_in no_floats (pos 1) empty_db no_nodes
      +64 credit no_floats tun_in (pos 1) (commit_seq no_floats no_nodes (pos 1)) script
exactly_once_example =
    exactly_once no_floats one_day tun_in (pos 1) script all_well empty_db no_nodes
      ((refl, λ d. refl), (omega arith, tt)) (refl, λ d. refl)

-- The database refuses the traffic of every row in one flush.
abbrev refuses : Answers
refuses = record { db_up = true; minutely_ok = true; traffic_ok = λ _ _. false; seq_ok = λ _. true }

-- node 1 holds 10 bytes
abbrev held_state : NodeState no_floats
held_state = record {
  ring = new_ring no_floats (pos 1);
  seq = record { last = pos 1 };
  agg = empty_agg no_floats;
  traf =
      ("2024-01-01", record { node_rx = pos 0; node_tx = pos 0; tun_in = pos 10; tun_out = pos 0 })
      ∷ [];
  last_persisted_seq = pos 0;
}

abbrev ten_bytes : Pipeline no_floats
ten_bytes = record { st = (pos 1, held_state) ∷ []; live = []; dropped_batches = 0 }

lost_for_good_example :
    (let before = flush no_floats refuses empty_db ten_bytes in
      let reported =
        (account no_floats one_day before.1 (pos 7) (pos 1) (traffic_report 2 20)).pipe in
      let after = flush no_floats all_well before.0 reported in
      Reached (pos 1) (pos 2) after.0.commit_seq
      × (wrap64 (durable tun_in (pos 1) after.0.traffic)
          ≡ wrap64 (durable tun_in (pos 1) empty_db.traffic)
            +64 report_bytes no_floats tun_in (traffic_report 2 20)))
unfolding lookup contains write_traffic write_row traffic_rows rows_of_days has_traffic commit_seq
lost_for_good_example =
    lost_for_good no_floats one_day (pos 1) empty_db ten_bytes held_state refuses (pos 7)
      (traffic_report 2 20) tun_in all_well (pos 0) (refl, refl, (λ d. refl), refl) (omega arith)
      (omega arith) refl (refl, (λ d. refl), refl)

flush-holds_back_example :
    lookup (pos 1) (flush no_floats refuses empty_db ten_bytes).0.commit_seq
    ≡ lookup (pos 1) empty_db.commit_seq
unfolding lookup
flush-holds_back_example =
    flush-holds_back no_floats (pos 1) refuses empty_db ten_bytes held_state "2024-01-01"
      (record { node_rx = pos 0; node_tx = pos 0; tun_in = pos 10; tun_out = pos 0 }) refl refl
      (λ h. ground (arith, h.2)) refl
