-- ===== src/Agent/Gate/Scan.antt =====
-- The steps of the replay by themselves, and what one scan of the log does.
use frp_panel.Prelude.{
  ℕ, zero, suc, ◌+◌, ◌≡◌, refl, sym, ap, subst, ◌∙◌, true, List, [], ◌∷◌, arith, Bool-cases, inl,
  inr, length,
}
use frp_panel.Prelude.Int.{ℤ, ◌≤ℤ◌, leb_ℤ}
use frp_panel.Agent.Wal.{TrafficRec}
use frp_panel.Agent.Wal.Recover.{AllUpTo}
use frp_panel.Agent.Gate.{Link, Phase, replay, end_round, open_gate}
use frp_panel.Agent.Gate.Invariant.{IsInOrder}
use frp_panel.Agent.Gate.Replayed.{replay-IsInOrder}

abbrev pub read_next : List TrafficRec → Link → Link
read_next [] l = end_round l
read_next (r ∷ rest) l = replay r rest true l

abbrev pub in_phase : Phase → Link → Link
in_phase Phase.replaying l = read_next l.unread l
in_phase Phase.leaving l = open_gate l
in_phase Phase.live l = l

-- the next step of the replay where the queue takes every record
unfoldable pub advance : Link → Link
advance l = in_phase l.phase l

unfoldable pub advance_all : ℕ → Link → Link
advance_all zero l = l
advance_all (suc n) l = advance_all n (advance l)

pub advance_all-add : (m n : ℕ) (l : Link) → advance_all (m + n) l ≡ advance_all n (advance_all m l)
unfolding advance_all
advance_all-add zero n l = ap (λ k. advance_all k l) {x = 0 + n} {y = n} (omega arith)
advance_all-add (suc m) n l =
    ap (λ k. advance_all k l) {x = suc m + n} {y = suc (m + n)} (omega arith)
    ∙ advance_all-add m n (advance l)

advance-live : (l : Link) → l.phase ≡ Phase.live → advance l ≡ l
unfolding advance
advance-live l p = rw p refl

pub advance_all-live : (n : ℕ) (l : Link) → l.phase ≡ Phase.live → advance_all n l ≡ l
unfolding advance_all
advance_all-live zero l p = refl
advance_all-live (suc n) l p = ap (advance_all n) (advance-live l p) ∙ advance_all-live n l p

-- a scan of some records
unfoldable pub scan : List TrafficRec → Link → Link
scan [] l = l
scan (r ∷ rs) l = scan rs (replay r rs true l)

pub advance-read :
    (l : Link) (rs : List TrafficRec)
    → l.phase ≡ Phase.replaying
    → l.unread ≡ rs
    → advance l ≡ read_next rs l
unfolding advance
advance-read l rs p e = ap (λ q. in_phase q l) p ∙ ap (λ u. read_next u l) e

-- What a read leaves alone.
pub record Keeps (l m : Link) : Type 0 where
  pub same_phase : m.phase ≡ l.phase
  pub same_log : m.log ≡ l.log
  pub same_after : m.after ≡ l.after

replay-Keeps : (r : TrafficRec) (rs : List TrafficRec) (l : Link) → Keeps l (replay r rs true l)
unfolding replay
replay-Keeps r rs l = elim (Bool-cases (leb_ℤ r.seq l.after)) [
  | inl h ↦ rw h record { same_phase = refl; same_log = refl; same_after = refl }
  | inr h ↦ rw h record { same_phase = refl; same_log = refl; same_after = refl }
]

unread-replay :
    (r : TrafficRec) (rs : List TrafficRec) (l : Link) → (replay r rs true l).unread ≡ rs
unfolding replay
unread-replay r rs l = elim (Bool-cases (leb_ℤ r.seq l.after)) [
  | inl h ↦ rw h refl
  | inr h ↦ rw h refl
]

pub scan-Keeps : (rs : List TrafficRec) (l : Link) → Keeps l (scan rs l)
unfolding scan
scan-Keeps [] l = record { same_phase = refl; same_log = refl; same_after = refl }
scan-Keeps (r ∷ rs) l =
    let k = replay-Keeps r rs l in
    let k' = scan-Keeps rs (replay r rs true l) in
    record {
      same_phase = k'.same_phase ∙ k.same_phase;
      same_log = k'.same_log ∙ k.same_log;
      same_after = k'.same_after ∙ k.same_after;
    }

pub unread-scan : (rs : List TrafficRec) (l : Link) → l.unread ≡ rs → (scan rs l).unread ≡ []
unfolding scan
unread-scan [] l e = e
unread-scan (r ∷ rs) l e = unread-scan rs (replay r rs true l) (unread-replay r rs l)

pub advance_all-scan :
    (rs : List TrafficRec) (l : Link)
    → l.phase ≡ Phase.replaying
    → l.unread ≡ rs
    → advance_all (length rs) l ≡ scan rs l
unfolding advance_all scan
advance_all-scan [] l p e = refl
advance_all-scan (r ∷ rs) l p e =
    ap (advance_all (length rs)) (advance-read l (r ∷ rs) p e)
    ∙ advance_all-scan rs (replay r rs true l) ((replay-Keeps r rs l).same_phase ∙ p)
        (unread-replay r rs l)

-- Nothing was sent.
pub record Same (l m : Link) : Type 0 where
  pub same_sent : m.sent ≡ l.sent
  pub same_queued : m.queued ≡ l.queued

replay-old :
    (r : TrafficRec) (rs : List TrafficRec) (l : Link)
    → r.seq ≤ℤ l.after
    → Same l (replay r rs true l)
unfolding replay
replay-old r rs l h = elim (Bool-cases (leb_ℤ r.seq l.after)) [
  | inl e ↦ rw e record { same_sent = refl; same_queued = refl }
  | inr e ↦ absurd (ground arith)
]

-- A scan of records that are known sends nothing.
pub scan-old : (rs : List TrafficRec) (l : Link) → AllUpTo l.after rs → Same l (scan rs l)
unfolding scan
scan-old [] l h = record { same_sent = refl; same_queued = refl }
scan-old (r ∷ rs) l h =
    let s = replay-old r rs l h.0 in
    let s' =
      scan-old rs (replay r rs true l)
        (subst (λ a. AllUpTo a rs) (sym (replay-Keeps r rs l).same_after) h.1) in
    record { same_sent = s'.same_sent ∙ s.same_sent; same_queued = s'.same_queued ∙ s.same_queued }

pub scan-IsInOrder :
    (from : ℤ) (rs : List TrafficRec) (l : Link)
    → l.phase ≡ Phase.replaying
    → l.unread ≡ rs
    → IsInOrder from l
    → IsInOrder from (scan rs l)
unfolding scan
scan-IsInOrder from [] l p e v = v
scan-IsInOrder from (r ∷ rs) l p e v =
    scan-IsInOrder from rs (replay r rs true l) ((replay-Keeps r rs l).same_phase ∙ p)
      (unread-replay r rs l) (replay-IsInOrder from l r rs true p e v)
