-- ===== src/Pipeline/State.antt =====
-- `dayTraffic`, `nodeState` and `Pipeline` of internal/panel/pipeline.go, with `InitNode`,
-- `RemoveNode`, `get`, `RingSnapshot`, `LastSample` and `CommitSeq`. A map is an association list.
use Prim.Native.String.{String}
use frp_panel.Prelude.{ℕ, Option, none, some, List, [], ◌∷◌, if◌then◌else◌}
use frp_panel.Prelude.Int.{ℤ, pos, ltb_ℤ}
use frp_panel.Prelude.Assoc.{Assoc, lookup, insert, erase, int_eq}
use frp_panel.Metrics.Float.{Floats}
use frp_panel.Metrics.Ring.{Ring, Sample, new_ring, snapshot}
use frp_panel.Metrics.Seq.{SeqTracker, new_seq_tracker}
use frp_panel.Metrics.Minute.{MinuteAgg, empty_agg}

pub record DayTraffic : Type 0 where
  pub node_rx : ℤ
  pub node_tx : ℤ
  pub tun_in : ℤ
  pub tun_out : ℤ

pub record NodeState (F : Floats) : Type 0 where
  pub ring : Ring F
  pub seq : SeqTracker
  pub agg : MinuteAgg F
  pub traf : Assoc String DayTraffic
  pub last_persisted_seq : ℤ

-- `app.live` and `app.droppedBatches` are the only fields of `App` that the pipeline writes.
pub record Pipeline (F : Floats) : Type 0 where
  pub st : Assoc ℤ (NodeState F)
  pub live : Assoc (ℤ × ℤ) String
  pub dropped_batches : ℕ

abbrev pub ring_capacity : ℤ
ring_capacity = pos 90

module _ (F : Floats) where
  unfoldable pub fresh_state : ℤ → NodeState F
  fresh_state last_seq = record {
    ring = new_ring F ring_capacity;
    seq = new_seq_tracker last_seq;
    agg = empty_agg F;
    traf = [];
    last_persisted_seq = last_seq;
  }

  -- A state that is there gets a new tracker if the database is ahead of it, and keeps its
  -- `last_persisted_seq`.
  unfoldable pub init_state : ℤ → Option (NodeState F) → NodeState F
  init_state last_seq none = fresh_state last_seq
  init_state last_seq (some s) =
      if ltb_ℤ s.seq.last last_seq then record s { seq = new_seq_tracker last_seq } else s

  unfoldable pub init_node : Pipeline F → ℤ → ℤ → Pipeline F
  unfolding init_state
  init_node p node last_seq = record p {
    st = insert node (init_state last_seq (lookup node p.st)) p.st;
  }

  unfoldable pub remove_node : Pipeline F → ℤ → Pipeline F
  remove_node p node = record p { st = erase node p.st }

  or_fresh : Option (NodeState F) → NodeState F
  or_fresh none = fresh_state (pos 0)
  or_fresh (some s) = s

  -- `get` also puts a state that it makes into the map; `account` writes the map in any case.
  unfoldable pub get : Pipeline F → ℤ → NodeState F
  unfolding or_fresh
  get p node = or_fresh (lookup node p.st)

  unfoldable pub ring_snapshot : Pipeline F → ℤ → List (Sample F)
  ring_snapshot p node = elim (lookup node p.st) [ none ↦ [] | some s ↦ snapshot F s.ring ]

  last_of : List (Sample F) → Option (Sample F)
  last_of [] = none
  last_of (s ∷ []) = some s
  last_of (s ∷ t ∷ ss) = last_of (t ∷ ss)

  unfoldable pub last_sample : Pipeline F → ℤ → Option (Sample F)
  unfolding last_of
  last_sample p node = last_of (ring_snapshot p node)

  unfoldable pub commit_seq : Pipeline F → ℤ → ℤ
  commit_seq p node = elim (lookup node p.st) [ none ↦ pos 0 | some s ↦ s.seq.last ]
