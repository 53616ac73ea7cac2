-- ===== src/Agent/Gate/Missed.antt =====
-- Samples that reach the log and never the panel.
use frp_panel.Prelude.{
  ◌≡◌, refl, sym, ap, subst, ◌∙◌, Bool, true, false, none, List, [], ◌∷◌, ◌++◌, arith,
}
use frp_panel.Prelude.Int.{ℤ, ◌≤ℤ◌, ◌<ℤ◌}
use frp_panel.Metrics.Seq.{SeqTracker, new_seq_tracker, accept}
use frp_panel.Agent.Wal.{TrafficRec}
use frp_panel.Agent.Gate.{
  Link, Phase, append_sample, is_live, offer, fan_out, sample, end_round, open_gate, sampled,
  fanned_out, round_ended, opened, Reach, here, next,
}

-- The panel's tracker behind a session's messages.
unfoldable pub track : SeqTracker → List TrafficRec → SeqTracker
track t [] = t
track t (r ∷ rs) = track (accept t r.seq).0 rs

track-last : (rs : List TrafficRec) (t : SeqTracker) → t.last ≤ℤ (track t rs).last
unfolding track accept
track-last [] t = omega arith
track-last (r ∷ rs) t = ground (arith, track-last rs (accept t r.seq).0)

track-append_one :
    (rs : List TrafficRec) (r : TrafficRec) (t : SeqTracker)
    → r.seq ≤ℤ (track t (rs ++ r ∷ [])).last
unfolding track accept
track-append_one [] r t = ground arith
track-append_one (x ∷ rs) r t = track-append_one rs r (accept t x.seq).0

-- A record below one that was sent is refused.
refused :
    (rs : List TrafficRec) (r r' : TrafficRec) (t : SeqTracker)
    → r.seq <ℤ r'.seq
    → (accept (track t (rs ++ r' ∷ [])) r.seq).1 ≡ false
unfolding accept
refused rs r r' t h = ground (arith, track-append_one rs r' t)

sample-Reach :
    {k l : Link} (r : TrafficRec) (room : Bool)
    → l.pending ≡ none
    → l.seq <ℤ r.seq
    → Reach k l
    → Reach k (sample r room l)
unfolding sample append_sample
sample-Reach r room idle new before =
    next (next before (sampled r idle new)) (fanned_out r room refl)

sample-not_live :
    (l : Link) (r : TrafficRec) (room : Bool)
    → is_live l.phase ≡ false
    → sample r room l ≡ record (append_sample r l) { pending = none }
unfolding sample fan_out append_sample
sample-not_live l r room h = rw h refl

sample-live :
    (l : Link) (r : TrafficRec) (room : Bool)
    → is_live l.phase ≡ true
    → sample r room l ≡ offer room r (record (append_sample r l) { pending = none })
unfolding sample fan_out append_sample
sample-live l r room h = rw h refl

end_round-quiet : (l : Link) → l.sent ≡ 0 → end_round l ≡ record l { phase = Phase.leaving }
unfolding end_round
end_round-quiet l h = ground arith

-- The session once the second of two samples was sent and the first was not.
abbrev overtaken : TrafficRec → TrafficRec → Link → Link
overtaken r r' l = record l {
  log = (l.log ++ r ∷ []) ++ r' ∷ [];
  unread = (l.unread ++ r ∷ []) ++ r' ∷ [];
  seq = r'.seq;
  pending = none;
  phase = Phase.live;
  queued = l.queued ++ r' ∷ [];
}

-- After `r` and `r'` in `l`: `r` is in the log and was not sent, and the panel refuses it after what
-- was sent.
abbrev pub IsMissed : Link → TrafficRec → TrafficRec → ℤ → Link → Type 0
IsMissed l r r' committed m =
    (m.log ≡ (l.log ++ r ∷ []) ++ r' ∷ [])
    × (m.queued ≡ l.queued ++ r' ∷ [])
    × ((accept (track (new_seq_tracker committed) m.queued) r.seq).1 ≡ false)

module _ (l : Link) (r r' : TrafficRec) (committed : ℤ) (idle : l.pending ≡ none)
    (new : l.seq <ℤ r.seq) (newer : r.seq <ℤ r'.seq) where
  overtaken-IsMissed : (m : Link) → m ≡ overtaken r r' l → IsMissed l r r' committed m
  overtaken-IsMissed m e =
      subst (IsMissed l r r' committed) (sym e)
        (refl, refl, refused l.queued r r' (new_seq_tracker committed) newer)

  late_eq :
      (room : Bool)
      → l.sent ≡ 0
      → sample r' true (open_gate (sample r room (end_round l))) ≡ overtaken r r' l
  unfolding append_sample open_gate
  late_eq room s =
      ap (λ t. sample r' true (open_gate (sample r room t))) (end_round-quiet l s)
      ∙ ap (λ t. sample r' true (open_gate t))
          (sample-not_live (record l { phase = Phase.leaving }) r room refl)
      ∙ sample-live _ r' true refl

  -- A sample that is written after the last scan of a replay and before the gate opens is in the
  -- log, but never sent, and the panel refuses it once it has the next sample.
  pub late_sample :
      (room : Bool)
      → l.phase ≡ Phase.replaying
      → l.unread ≡ []
      → l.sent ≡ 0
      → let m = sample r' true (open_gate (sample r room (end_round l))) in
        Reach l m × IsMissed l r r' committed m
  unfolding append_sample open_gate
  late_sample room p e s =
      let q = sample-not_live (record l { phase = Phase.leaving }) r room refl in
      let left = subst (Reach l) (end_round-quiet l s) (next here (round_ended p e)) in
      let opened_up = next (sample-Reach r room idle new left) (opened (ap (λ m. m.phase) q)) in
      (
        rw (end_round-quiet l s) (
            sample-Reach r' true (ap (λ m. m.pending) q)
              (subst (λ n. n <ℤ r'.seq) (sym (ap (λ m. m.seq) q)) newer) opened_up),
        overtaken-IsMissed _ (late_eq room s),
      )

  dropped_eq : l.phase ≡ Phase.live → sample r' true (sample r false l) ≡ overtaken r r' l
  unfolding append_sample
  dropped_eq p =
      ap (sample r' true) (sample-live l r false (ap is_live p))
      ∙ sample-live _ r' true (ap is_live p)
      ∙ ap (λ q. record (overtaken r r' l) { phase = q }) p

  -- A sample that a full queue drops is in the log, but not sent, and the panel refuses it once it
  -- has the next sample.
  pub dropped_sample :
      l.phase ≡ Phase.live
      → let m = sample r' true (sample r false l) in Reach l m × IsMissed l r r' committed m
  unfolding append_sample
  dropped_sample p =
      let q = sample-live l r false (ap is_live p) in
      (
        sample-Reach r' true (ap (λ m. m.pending) q)
            (subst (λ n. n <ℤ r'.seq) (sym (ap (λ m. m.seq) q)) newer)
            (sample-Reach r false idle new here),
        overtaken-IsMissed _ (dropped_eq p),
      )
