-- ===== src/Agent/Gate/Replayed.antt =====
-- The same for the steps of the replay.
use frp_panel.Prelude.{
  ◌≡◌, sym, ap, subst, ◌∙◌, Bool, true, false, List, [], ◌∷◌, ◌++◌, arith, append_assoc, append-nil,
  if◌then◌else◌, ltb, Bool-cases, inl, inr, suc,
}
use frp_panel.Prelude.Int.{ℤ, ◌≤ℤ◌, leb_ℤ}
use frp_panel.Agent.Wal.{TrafficRec}
use frp_panel.Agent.Wal.Recover.{above, AllUpTo, above-AllUpTo}
use frp_panel.Agent.Gate.Sorted.{
  InOrder, AllUpTo-append, InOrder-above, InOrder-prefix, AllUpTo-above, InOrder-AllUpTo,
  above-AllUpTo_keep, AllUpTo-middle,
}
use frp_panel.Agent.Gate.{
  Link, Phase, replay, take_record, next_round, end_round, max_backfill_rounds,
}
use frp_panel.Agent.Gate.Invariant.{IsOrdered, IsReplaying, InPhase, IsInOrder}

module _ (from : ℤ) where
  -- What a scan does with the record that it reads.
  skip-IsReplaying :
      (l : Link) (r : TrafficRec) (rest : List TrafficRec)
      → l.unread ≡ r ∷ rest
      → leb_ℤ r.seq l.after ≡ true
      → IsReplaying from l
      → IsReplaying from (record l { unread = rest })
  unfolding above
  skip-IsReplaying l r rest e low v = record {
    whole = rw low at (subst (λ u. l.queued ++ above l.after u ≡ above from l.log) e v.whole);
    up_to = v.up_to;
    first = v.first;
    second = v.second;
    third = v.third;
  }

  send_whole :
      (l : Link) (r : TrafficRec) (rest : List TrafficRec)
      → l.unread ≡ r ∷ rest
      → leb_ℤ r.seq l.after ≡ false
      → IsReplaying from l
      → l.queued ++ r ∷ above l.after rest ≡ above from l.log
  unfolding above
  send_whole l r rest e high v =
      rw high at (subst (λ u. l.queued ++ above l.after u ≡ above from l.log) e v.whole)

  module _ (l : Link) (r : TrafficRec) (rest : List TrafficRec)
      (w : l.queued ++ r ∷ above l.after rest ≡ above from l.log)
      (o : IsOrdered l.log l.seq l.queued) where
    sending-InOrder : InOrder (l.queued ++ r ∷ above l.after rest)
    sending-InOrder = subst InOrder (sym w) (InOrder-above from l.log o.log_in_order)

    sending-AllUpTo : AllUpTo l.seq (l.queued ++ r ∷ above l.after rest)
    sending-AllUpTo =
        subst (AllUpTo l.seq) (sym w) (above-AllUpTo_keep from l.seq l.log o.log_up_to)

    sent-le : r.seq ≤ℤ l.seq
    sent-le = AllUpTo-middle l.seq l.queued r (above l.after rest) sending-AllUpTo

    regroup : (l.queued ++ r ∷ []) ++ above l.after rest ≡ l.queued ++ r ∷ above l.after rest
    regroup = append_assoc l.queued (r ∷ []) (above l.after rest)

    send-IsOrdered : IsOrdered l.log l.seq (l.queued ++ r ∷ [])
    send-IsOrdered = record {
      log_in_order = o.log_in_order;
      log_up_to = o.log_up_to;
      in_order =
          InOrder-prefix (l.queued ++ r ∷ []) (above l.after rest)
            (subst InOrder (sym regroup) sending-InOrder);
      queued_up_to = AllUpTo-append l.seq l.queued (r ∷ []) o.queued_up_to (sent-le, tt);
    }

    send-IsReplaying :
        leb_ℤ r.seq l.after ≡ false → IsReplaying from l → IsReplaying from (take_record r rest l)
    send-IsReplaying high v =
        let newest = InOrder-AllUpTo l.queued r (above l.after rest) sending-InOrder in
        record {
          whole = regroup ∙ w;
          up_to = AllUpTo-append r.seq l.queued (r ∷ []) newest (omega arith, tt);
          first = v.first;
          second = ground arith;
          third = sent-le;
        }

  in_replaying :
      (l : Link) → l.phase ≡ Phase.replaying → IsReplaying from l → InPhase from l.phase l
  in_replaying l p v = subst (λ q. InPhase from q l) (sym p) v

  pub replaying_part :
      (l : Link) → l.phase ≡ Phase.replaying → IsInOrder from l → IsReplaying from l
  replaying_part l p v = subst (λ q. InPhase from q l) p v.in_phase

  pub replay-IsInOrder :
      (l : Link) (r : TrafficRec) (rest : List TrafficRec) (accepted : Bool)
      → l.phase ≡ Phase.replaying
      → l.unread ≡ r ∷ rest
      → IsInOrder from l
      → IsInOrder from (replay r rest accepted l)
  unfolding replay
  replay-IsInOrder l r rest accepted p e v = elim (Bool-cases (leb_ℤ r.seq l.after)) [
    | inl low ↦ rw low record {
      ordered = v.ordered;
      last = v.last;
      in_phase =
          in_replaying (record l { unread = rest }) p
            (skip-IsReplaying l r rest e low (replaying_part l p v));
    }
    | inr high ↦ rw high (sending accepted high)
  ]
    where
      sending :
          (b : Bool)
          → leb_ℤ r.seq l.after ≡ false
          → IsInOrder from (if b then take_record r rest l else record l { phase = Phase.leaving })
      sending false high = record { ordered = v.ordered; last = v.last; in_phase = tt }
      sending true high =
          let w = send_whole l r rest e high (replaying_part l p v) in
          record {
            ordered = send-IsOrdered l r rest w v.ordered;
            last = v.last;
            in_phase =
                in_replaying (take_record r rest l) p
                  (send-IsReplaying l r rest w v.ordered high (replaying_part l p v));
          }

  -- At the end of a scan all of the log above `from` is queued.
  pub scanned_all : (l : Link) → l.unread ≡ [] → IsReplaying from l → l.queued ≡ above from l.log
  unfolding above
  scanned_all l e v =
      sym (append-nil l.queued)
      ∙ subst (λ u. l.queued ++ above l.after u ≡ above from l.log) e v.whole

  again-IsReplaying :
      (l : Link) → l.unread ≡ [] → IsReplaying from l → IsReplaying from (next_round l)
  again-IsReplaying l e v =
      let all = scanned_all l e v in
      let old =
        AllUpTo-above from l.cursor l.log (omega (arith, v.first, v.second))
          (subst (AllUpTo l.cursor) all v.up_to) in
      record {
        whole =
            ap (λ rs. l.queued ++ rs) (above-AllUpTo l.cursor l.log old)
            ∙ append-nil l.queued
            ∙ all;
        up_to = v.up_to;
        first = omega (arith, v.first, v.second);
        second = omega arith;
        third = v.third;
      }

  pub leave-IsInOrder :
      (l : Link) → IsInOrder from l → IsInOrder from (record l { phase = Phase.leaving })
  leave-IsInOrder l v = record { ordered = v.ordered; last = v.last; in_phase = tt }

  pub end_round-IsInOrder :
      (l : Link)
      → l.phase ≡ Phase.replaying
      → l.unread ≡ []
      → IsInOrder from l
      → IsInOrder from (end_round l)
  unfolding end_round
  end_round-IsInOrder l p e v = elim (Bool-cases (ltb 0 l.sent)) [
    | inr quiet ↦ rw quiet (leave-IsInOrder l v)
    | inl more ↦ rw more (elim (Bool-cases (ltb (suc l.round) max_backfill_rounds)) [
      | inr capped ↦ rw capped (leave-IsInOrder l v)
      | inl again ↦ rw again record {
        ordered = v.ordered;
        last = v.last;
        in_phase = in_replaying (next_round l) p (again-IsReplaying l e (replaying_part l p v));
      }
    ])
  ]
