-- ===== src/Metrics/Seq.antt =====
-- `SeqTracker` of internal/metrics/metrics.go: the watermark that makes a replayed sample a no-op.
use frp_panel.Prelude.{Bool, true, false, if◌then◌else◌}
use frp_panel.Prelude.Int.{ℤ, leb_ℤ}

pub record SeqTracker : Type 0 where
  pub last : ℤ

unfoldable pub new_seq_tracker : ℤ → SeqTracker
new_seq_tracker last = record { last = last }

-- the tracker afterwards, and whether the sample is new
unfoldable pub accept : SeqTracker → ℤ → SeqTracker × Bool
accept t seq = if leb_ℤ seq t.last then (t, false) else (record { last = seq }, true)
