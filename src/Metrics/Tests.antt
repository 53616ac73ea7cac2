-- ===== src/Metrics/Tests.antt =====
-- A ring of two slots, and its theorem at three samples.
use frp_panel.Prelude.{◌≡◌, List, [], ◌∷◌}
use frp_panel.Prelude.Int.{ℤ, pos}
use frp_panel.Metrics.Float.{Floats}
use frp_panel.Metrics.Ring.{Sample, new_ring, snapshot}
use frp_panel.Metrics.Ring.Refine.{add_all, snapshot-add_all}

abbrev no_floats : Floats
no_floats = record {
  Float = Unit {0};
  zero_float = tt;
  add_float = λ _ _. tt;
  div_float = λ _ _. tt;
}

abbrev sample_at : ℤ → Sample no_floats
sample_at ms = record {
  at_unix_ms = ms;
  cpu = tt;
  mem = tt;
  net_rx_bps = pos 0;
  net_tx_bps = pos 0;
  tun_in_bps = pos 0;
  tun_out_bps = pos 0;
}

abbrev three_samples : List (Sample no_floats)
three_samples = sample_at (pos 1) ∷ sample_at (pos 2) ∷ sample_at (pos 3) ∷ []

snapshot-add_all_example :
    snapshot no_floats (add_all no_floats (new_ring no_floats (pos 2)) three_samples)
    ≡ sample_at (pos 2) ∷ sample_at (pos 3) ∷ []
snapshot-add_all_example = snapshot-add_all no_floats (pos 2) three_samples
