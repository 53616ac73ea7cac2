-- ===== src/Agent/Gate/Invariant.antt =====
-- What holds of a link in each phase, and keeps holding when a sample comes.
use frp_panel.Prelude.{
  ◌≡◌, refl, sym, ap, subst, ◌∙◌, Bool, true, false, Option, none, some, List, [], ◌∷◌, ◌++◌, arith,
  append_assoc, Bool-cases, inl, inr,
}
use frp_panel.Prelude.Int.{ℤ, ◌≤ℤ◌, ◌<ℤ◌}
use frp_panel.Agent.Wal.{TrafficRec}
use frp_panel.Agent.Wal.Recover.{above, AllUpTo}
use frp_panel.Agent.Gate.Sorted.{
  InOrder, AllUpTo-append, AllUpTo-mono, InOrder-append_one, above-append_one,
}
use frp_panel.Agent.Gate.{Link, Phase, append_sample, is_live, offer, fan_out}

abbrev pub IsLast : Option TrafficRec → ℤ → Type 0
IsLast none seq = Unit {0}
IsLast (some r) seq = r.seq ≡ seq

pub record IsOrdered (log : List TrafficRec) (seq : ℤ) (queued : List TrafficRec) : Type 0 where
  pub log_in_order : InOrder log
  pub log_up_to : AllUpTo seq log
  pub in_order : InOrder queued
  pub queued_up_to : AllUpTo seq queued

module _ (from : ℤ) where
  -- In the replay: what was queued and what is left of this scan are the log above `from`.
  pub record IsReplaying (l : Link) : Type 0 where
    pub whole : l.queued ++ above l.after l.unread ≡ above from l.log
    pub up_to : AllUpTo l.cursor l.queued
    pub first : from ≤ℤ l.after
    pub second : l.after ≤ℤ l.cursor
    pub third : l.cursor ≤ℤ l.seq

  abbrev pub InPhase : Phase → Link → Type 0
  InPhase Phase.replaying l = IsReplaying l
  InPhase Phase.leaving l = Unit {0}
  InPhase Phase.live l = Unit {0}

  pub record IsInOrder (l : Link) : Type 0 where
    pub ordered : IsOrdered l.log l.seq l.queued
    pub last : IsLast l.pending l.seq
    pub in_phase : InPhase l.phase l

  append-InPhase :
      (p : Phase) (l : Link) (r : TrafficRec)
      → l.seq <ℤ r.seq
      → InPhase p l
      → InPhase p (append_sample r l)
  unfolding append_sample
  append-InPhase Phase.replaying l r h v = record {
    whole =
        ap (λ rs. l.queued ++ rs)
          (above-append_one l.after l.unread r (omega (arith, v.second, v.third)))
        ∙ sym (append_assoc l.queued (above l.after l.unread) (r ∷ []))
        ∙ ap (λ rs. rs ++ r ∷ []) v.whole
        ∙ sym (above-append_one from l.log r (omega (arith, v.first, v.second, v.third)));
    up_to = v.up_to;
    first = v.first;
    second = v.second;
    third = omega (arith, v.third);
  }
  append-InPhase Phase.leaving l r h v = tt
  append-InPhase Phase.live l r h v = tt

  pub append-IsInOrder :
      (l : Link) (r : TrafficRec) → l.seq <ℤ r.seq → IsInOrder l → IsInOrder (append_sample r l)
  unfolding append_sample
  append-IsInOrder l r h v =
      let o = v.ordered in
      let up = AllUpTo-mono l.seq r.seq l.log (omega arith) o.log_up_to in
      record {
        ordered = record {
          log_in_order = InOrder-append_one l.log r o.log_in_order up;
          log_up_to = AllUpTo-append r.seq l.log (r ∷ []) up (omega arith, tt);
          in_order = o.in_order;
          queued_up_to = AllUpTo-mono l.seq r.seq l.queued (omega arith) o.queued_up_to;
        };
        last = refl;
        in_phase = append-InPhase l.phase l r h v.in_phase;
      }

  -- A record with the highest number is queued last.
  queue-IsOrdered :
      (log queued : List TrafficRec) (seq : ℤ) (r : TrafficRec)
      → r.seq ≡ seq
      → IsOrdered log seq queued
      → IsOrdered log seq (queued ++ r ∷ [])
  queue-IsOrdered log queued seq r e o = record {
    log_in_order = o.log_in_order;
    log_up_to = o.log_up_to;
    in_order =
        InOrder-append_one queued r o.in_order
          (subst (λ s. AllUpTo s queued) (sym e) o.queued_up_to);
    queued_up_to = AllUpTo-append seq queued (r ∷ []) o.queued_up_to (ground arith);
  }

  fan_out-InPhase :
      (p : Phase) (l : Link)
      → is_live p ≡ false
      → InPhase p l
      → InPhase p (record l { pending = none })
  fan_out-InPhase Phase.replaying l e v = record {
    whole = v.whole;
    up_to = v.up_to;
    first = v.first;
    second = v.second;
    third = v.third;
  }
  fan_out-InPhase Phase.leaving l e v = tt
  fan_out-InPhase Phase.live l e v = tt

  in_live : (p : Phase) (l : Link) → is_live p ≡ true → InPhase p l
  in_live Phase.replaying l e = cc
  in_live Phase.leaving l e = cc
  in_live Phase.live l e = tt

  pub fan_out-IsInOrder :
      (l : Link) (r : TrafficRec) (room : Bool)
      → l.pending ≡ some r
      → IsInOrder l
      → IsInOrder (fan_out r room l)
  unfolding fan_out
  fan_out-IsInOrder l r room e v = elim (Bool-cases (is_live l.phase)) [
    | inl h ↦ rw h (offered room h)
    | inr h ↦
        rw h record {
          ordered = v.ordered;
          last = tt;
          in_phase = fan_out-InPhase l.phase l h v.in_phase;
        }
  ]
    where
      newest : r.seq ≡ l.seq
      newest = subst (λ o. IsLast o l.seq) e v.last

      offered :
          (room : Bool)
          → is_live l.phase ≡ true
          → IsInOrder (offer room r (record l { pending = none }))
      offered false h = record { ordered = v.ordered; last = tt; in_phase = in_live l.phase _ h }
      offered true h = record {
        ordered = queue-IsOrdered l.log l.queued l.seq r newest v.ordered;
        last = tt;
        in_phase = in_live l.phase _ h;
      }
