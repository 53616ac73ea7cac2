-- ===== src/Agent/Gate/Finished.antt =====
-- That a replay ends.
use frp_panel.Prelude.{
  ℕ, suc, ◌+◌, ◌-◌, ◌*◌, ◌≤◌, ◌≡◌, refl, sym, ap, subst, ◌∙◌, List, [], arith, ltb, Bool-cases, inl,
  inr, length,
}
use frp_panel.Prelude.Int.{ℤ, ◌≤ℤ◌}
use frp_panel.Agent.Wal.{TrafficRec}
use frp_panel.Agent.Wal.Recover.{above, AllUpTo}
use frp_panel.Agent.Gate.{Link, Phase, start, next_round, end_round, open_gate, max_backfill_rounds}
use frp_panel.Agent.Gate.Sorted.{InOrder, AllUpTo-above}
use frp_panel.Agent.Gate.Invariant.{IsReplaying, IsInOrder}
use frp_panel.Agent.Gate.Replayed.{scanned_all, replaying_part}
use frp_panel.Agent.Gate.Order.{start-IsInOrder}
use frp_panel.Agent.Gate.Scan.{
  advance, advance_all, advance_all-add, advance_all-live, advance-read, scan, scan-Keeps,
  unread-scan, advance_all-scan, scan-old, scan-IsInOrder,
}

end_round-quiet : (l : Link) → l.sent ≡ 0 → end_round l ≡ record l { phase = Phase.leaving }
unfolding end_round
end_round-quiet l h = ground arith

-- `m` is live and was sent what `l` was.
abbrev IsDone : Link → Link → Type 0
IsDone l m = (m.phase ≡ Phase.live) × (m.queued ≡ l.queued) × (m.log ≡ l.log)

IsDone-more : (l k : Link) (m n : ℕ) → IsDone l (advance_all m k) → IsDone l (advance_all (m + n) k)
IsDone-more l k m n d =
    subst (IsDone l) (sym (advance_all-add m n k ∙ advance_all-live n (advance_all m k) d.0)) d

-- from a phase behind the last scan
leave-IsDone :
    (l k : Link) (n : ℕ)
    → advance k ≡ record l { phase = Phase.leaving }
    → IsDone l (advance_all (2 + n) k)
unfolding advance_all advance open_gate
leave-IsDone l k n e =
    IsDone-more l k 2 n (subst (λ m. IsDone l (advance m)) (sym e) (refl, refl, refl))

quiet-IsDone :
    (l : Link) (n : ℕ)
    → l.phase ≡ Phase.replaying
    → l.unread ≡ []
    → l.sent ≡ 0
    → IsDone l (advance_all (2 + n) l)
quiet-IsDone l n p e s = leave-IsDone l l n (advance-read l [] p e ∙ end_round-quiet l s)

-- the second scan
second-IsDone :
    (l : Link) (n : ℕ)
    → l.phase ≡ Phase.replaying
    → AllUpTo l.cursor l.log
    → IsDone l (advance_all (length l.log + (2 + n)) (next_round l))
second-IsDone l n p h =
    let m = scan l.log (next_round l) in
    let s = scan-old l.log (next_round l) h in
    let k = scan-Keeps l.log (next_round l) in
    let d =
      quiet-IsDone m n (k.same_phase ∙ p) (unread-scan l.log (next_round l) refl) s.same_sent in
    subst (IsDone l)
      (sym (
        advance_all-add (length l.log) (2 + n) (next_round l)
        ∙ ap (advance_all (2 + n)) (advance_all-scan l.log (next_round l) p refl)))
      (d.0, d.1 ∙ s.same_queued, d.2 ∙ k.same_log)

all_known : (from : ℤ) (l : Link) → l.unread ≡ [] → IsReplaying from l → AllUpTo l.cursor l.log
all_known from l e v =
    AllUpTo-above from l.cursor l.log (omega (arith, v.first, v.second))
      (subst (AllUpTo l.cursor) (scanned_all from l e v) v.up_to)

-- from the end of a scan
scanned-IsDone :
    (from : ℤ) (l : Link) (n : ℕ)
    → l.phase ≡ Phase.replaying
    → l.unread ≡ []
    → IsInOrder from l
    → IsDone l (advance_all (suc (length l.log + (2 + n))) l)
unfolding end_round advance_all
scanned-IsDone from l n p e v = elim (Bool-cases (ltb 0 l.sent)) [
  | inr quiet ↦
      subst (λ k. IsDone l (advance_all k l)) {x = 2 + (length l.log + suc n)}
        {y = suc (length l.log + (2 + n))} (omega arith)
        (quiet-IsDone l (length l.log + suc n) p e (ground (arith, quiet)))
  | inl more ↦ elim (Bool-cases (ltb (suc l.round) max_backfill_rounds)) [
    | inr capped ↦
        subst (λ k. IsDone l (advance_all k l)) {x = 2 + (length l.log + suc n)}
          {y = suc (length l.log + (2 + n))} (omega arith)
          (leave-IsDone l l (length l.log + suc n)
            (advance-read l [] p e ∙ rw (more, capped, end_round) refl))
    | inl again ↦
        subst (λ m. IsDone l (advance_all (length l.log + (2 + n)) m))
          (sym (advance-read l [] p e ∙ rw (more, again, end_round) refl))
          (second-IsDone l n p (all_known from l e (replaying_part from l p v)))
  ]
]

-- Where no sample comes meanwhile and the queue takes every record, a replay is over after at most
-- two scans of the log: then the gate is open and all of the log above the panel's number is queued,
-- each record once and in order. The log is in order, and the panel's number none of the future.
pub advance_all-start :
    (log : List TrafficRec) (seq last_commit_seq : ℤ) (n : ℕ)
    → InOrder log
    → AllUpTo seq log
    → last_commit_seq ≤ℤ seq
    → 2 * length log + 3 ≤ n
    → let l = advance_all n (start log seq last_commit_seq) in
      (l.phase ≡ Phase.live) × (l.queued ≡ above last_commit_seq log)
unfolding start
advance_all-start log seq from n h k b enough =
    let l = start log seq from in
    let m = scan log l in
    let v = scan-IsInOrder from log l refl refl (start-IsInOrder from log seq h k b) in
    let d =
      scanned-IsDone from m (n - (2 * length log + 3)) ((scan-Keeps log l).same_phase)
        (unread-scan log l refl) v in
    let e1 : n ≡ length log + suc (length m.log + (2 + (n - (2 * length log + 3)))) =
      omega (arith, ap length (scan-Keeps log l).same_log) in
    let e =
      ap (λ j. advance_all j l) e1
      ∙ advance_all-add (length log) (suc (length m.log + (2 + (n - (2 * length log + 3))))) l
      ∙ ap (advance_all (suc (length m.log + (2 + (n - (2 * length log + 3))))))
          (advance_all-scan log l refl refl) in
    let q =
      scanned_all from m (unread-scan log l refl)
        (replaying_part from m (scan-Keeps log l).same_phase v)
      ∙ ap (above from) (scan-Keeps log l).same_log in
    subst (λ t. (t.phase ≡ Phase.live) × (t.queued ≡ above from log)) (sym e) (d.0, d.1 ∙ q)
