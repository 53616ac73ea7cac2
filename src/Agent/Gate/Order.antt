-- ===== src/Agent/Gate/Order.antt =====
-- What a session's queue has taken, in every order of the steps.
use frp_panel.Prelude.{◌≡◌, refl, List, [], arith}
use frp_panel.Prelude.Int.{ℤ, ◌≤ℤ◌}
use frp_panel.Agent.Wal.{TrafficRec}
use frp_panel.Agent.Wal.Recover.{above, AllUpTo}
use frp_panel.Agent.Gate.Sorted.{InOrder}
use frp_panel.Agent.Gate.{
  Link, Phase, start, open_gate, fail_scan, Step, sampled, fanned_out, replayed, round_ended,
  scan_failed, opened, Reach, here, next,
}
use frp_panel.Agent.Gate.Invariant.{IsInOrder, append-IsInOrder, fan_out-IsInOrder}
use frp_panel.Agent.Gate.Replayed.{
  replay-IsInOrder, end_round-IsInOrder, leave-IsInOrder, scanned_all, replaying_part,
}

module _ (from : ℤ) where
  Step-IsInOrder : {l m : Link} → Step l m → IsInOrder from l → IsInOrder from m
  unfolding open_gate fail_scan
  Step-IsInOrder (sampled r p h) v = append-IsInOrder from _ r h v
  Step-IsInOrder (fanned_out r room p) v = fan_out-IsInOrder from _ r room p v
  Step-IsInOrder (replayed r rest accepted p e) v = replay-IsInOrder from _ r rest accepted p e v
  Step-IsInOrder (round_ended p e) v = end_round-IsInOrder from _ p e v
  Step-IsInOrder {l} (scan_failed p) v = leave-IsInOrder from l v
  Step-IsInOrder (opened p) v = record { ordered = v.ordered; last = v.last; in_phase = tt }

  Reach-IsInOrder : {l m : Link} → IsInOrder from l → Reach l m → IsInOrder from m
  Reach-IsInOrder v here = v
  Reach-IsInOrder v (next r s) = Step-IsInOrder s (Reach-IsInOrder v r)

  pub start-IsInOrder :
      (log : List TrafficRec) (seq : ℤ)
      → InOrder log
      → AllUpTo seq log
      → from ≤ℤ seq
      → IsInOrder from (start log seq from)
  unfolding start
  start-IsInOrder log seq h k b = record {
    ordered = record { log_in_order = h; log_up_to = k; in_order = tt; queued_up_to = tt };
    last = tt;
    in_phase = record {
      whole = refl;
      up_to = tt;
      first = omega arith;
      second = omega arith;
      third = b;
    };
  }

module _ (log : List TrafficRec) (seq last_commit_seq : ℤ) (log_in_order : InOrder log)
    (log_up_to : AllUpTo seq log) (known : last_commit_seq ≤ℤ seq) (l : Link)
    (reached : Reach (start log seq last_commit_seq) l) where
  reached-IsInOrder : IsInOrder last_commit_seq l
  reached-IsInOrder =
      Reach-IsInOrder last_commit_seq
        (start-IsInOrder last_commit_seq log seq log_in_order log_up_to known) reached

  -- Whatever the order of the steps, a session's queue takes no record behind one with a higher
  -- number, if the log is in order at the start and the panel's number is none of the future.
  queued-InOrder : InOrder l.queued
  queued-InOrder = reached-IsInOrder.ordered.in_order

  -- If the log is in order at the start, with no number above the last one given, and the panel's
  -- number is none of the future, then at the end of each scan of a replay, whatever steps came
  -- before, the session's queue has taken the records of the log above the panel's number, each once
  -- and in the order of the log, with all that were written since.
  pub queued-above :
      l.phase ≡ Phase.replaying → l.unread ≡ [] → l.queued ≡ above last_commit_seq l.log
  queued-above p e =
      scanned_all last_commit_seq l e (replaying_part last_commit_seq l p reached-IsInOrder)
