-- ===== src/Agent/Gate.antt =====
-- The replay of the log to a panel that connects and the gate that holds live samples back meanwhile:
-- `backfill`, `sendWait`, `enqueue`, `fanout` and the part of `sampleAndBroadcast` that writes and
-- sends, in internal/agent/server.go, for one session. The sampling goroutine and the replay goroutine
-- interleave freely. A rotation of the log during the replay is not modelled.
pub mod Sorted
pub mod Invariant
pub mod Replayed
pub mod Order
pub mod Scan
pub mod Finished
pub mod Missed
mod Tests
use frp_panel.Prelude.{
  ℕ, suc, ◌<◌, ◌≤◌, ◌≡◌, Bool, true, false, Option, none, some, List, [], ◌∷◌, ◌++◌, if◌then◌else◌,
  ltb,
}
use frp_panel.Prelude.Int.{ℤ, ◌<ℤ◌, leb_ℤ}
use frp_panel.Agent.Wal.{TrafficRec}

-- Where the replay goroutine stands: in a scan of the log, behind its last scan, or past the gate.
pub data Phase : Type 0 where
  replaying leaving live : Phase

pub record Link : Type 0 where
  -- the records of the log's file, and those that the current scan has not read
  pub log : List TrafficRec
  pub unread : List TrafficRec
  -- `wal.seq`
  pub seq : ℤ
  -- the sample that is in the log and not yet fanned out
  pub pending : Option TrafficRec
  -- the number that this scan starts behind, `cursor`, `round` and `sent`
  pub after : ℤ
  pub cursor : ℤ
  pub round : ℕ
  pub sent : ℕ
  pub phase : Phase
  -- what the session's queue has taken, the latest last
  pub queued : List TrafficRec

abbrev pub max_backfill_rounds : ℕ
max_backfill_rounds = 24

-- `go s.backfill(sess, hello.LastCommitSeq)`
unfoldable pub start : List TrafficRec → ℤ → ℤ → Link
start log seq last_commit_seq = record {
  log = log;
  unread = log;
  seq = seq;
  pending = none;
  after = last_commit_seq;
  cursor = last_commit_seq;
  round = 0;
  sent = 0;
  phase = Phase.replaying;
  queued = [];
}

-- The sampling goroutine appends a record.
unfoldable pub append_sample : TrafficRec → Link → Link
append_sample r l = record l {
  log = l.log ++ r ∷ [];
  unread = l.unread ++ r ∷ [];
  seq = r.seq;
  pending = some r;
}

abbrev pub is_live : Phase → Bool
is_live Phase.replaying = false
is_live Phase.leaving = false
is_live Phase.live = true

abbrev pub offer : Bool → TrafficRec → Link → Link
offer true r l = record l { queued = l.queued ++ r ∷ [] }
offer false r l = l

-- `fanout` of a sample: a session that is not ready is passed over, and a full queue drops it.
unfoldable pub fan_out : TrafficRec → Bool → Link → Link
fan_out r room l =
    let l' = record l { pending = none } in if is_live l.phase then offer room r l' else l'

-- A sample that the sampling goroutine appends and fans out.
unfoldable pub sample : TrafficRec → Bool → Link → Link
sample r room l = fan_out r room (append_sample r l)

-- the record that `sendWait` has queued
abbrev pub take_record : TrafficRec → List TrafficRec → Link → Link
take_record r rest l = record l {
  unread = rest;
  queued = l.queued ++ r ∷ [];
  cursor = r.seq;
  sent = suc l.sent;
}

-- the next scan, behind the records that were sent
abbrev pub next_round : Link → Link
next_round l = record l { round = suc l.round; sent = 0; after = l.cursor; unread = l.log }

-- One record of a scan. `sendWait` answers `accepted`; it is not asked about a record that the scan
-- starts behind.
unfoldable pub replay : TrafficRec → List TrafficRec → Bool → Link → Link
replay r rest accepted l =
    if leb_ℤ r.seq l.after
    then record l { unread = rest }
    else if accepted
    then take_record r rest l
    else record l { phase = Phase.leaving }

-- The end of a scan: the replay is over if it sent nothing or was the last that is allowed.
unfoldable pub end_round : Link → Link
end_round l =
    if ltb 0 l.sent
    then (if ltb (suc l.round) max_backfill_rounds
        then next_round l
        else record l { phase = Phase.leaving })
    else record l { phase = Phase.leaving }

-- `sess.ready.Store(true)`
unfoldable pub open_gate : Link → Link
open_gate l = record l { phase = Phase.live }

-- A scan that fails ends the replay.
unfoldable pub fail_scan : Link → Link
fail_scan l = record l { phase = Phase.leaving }

-- `next_seq` gives a number above all before it.
pub data Step (l : Link) : Link → Type 0 where
  sampled : (r : TrafficRec) → l.pending ≡ none → l.seq <ℤ r.seq → Step l (append_sample r l)
  fanned_out : (r : TrafficRec) (room : Bool) → l.pending ≡ some r → Step l (fan_out r room l)
  replayed :
      (r : TrafficRec) (rest : List TrafficRec) (accepted : Bool)
      → l.phase ≡ Phase.replaying
      → l.unread ≡ r ∷ rest
      → Step l (replay r rest accepted l)
  round_ended : l.phase ≡ Phase.replaying → l.unread ≡ [] → Step l (end_round l)
  scan_failed : l.phase ≡ Phase.replaying → Step l (fail_scan l)
  opened : l.phase ≡ Phase.leaving → Step l (open_gate l)

pub data Reach (l : Link) : Link → Type 0 where
  here : Reach l l
  next : {m n : Link} → Reach l m → Step m n → Reach l n
