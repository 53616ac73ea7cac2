-- ===== src/Metrics/Ring.antt =====
-- `Sample` and `Ring` of internal/metrics/metrics.go. The lock is not modelled: every method holds
-- it from its first access to its last, so calls are atomic.
pub mod Window
pub mod Round
pub mod Refine
use frp_panel.Prelude.{
  ℕ, zero, suc, ◌+◌, ◌-◌, ◌%◌, Bool, List, [], ◌∷◌, ltb, if◌then◌else◌, length, get_or, set,
  replicate,
}
use frp_panel.Prelude.Int.{ℤ, pos, pos_part, ltb_ℤ}
use frp_panel.Metrics.Float.{Floats}

pub record Sample (F : Floats) : Type 0 where
  pub at_unix_ms : ℤ
  pub cpu : F.Float
  pub mem : F.Float
  pub net_rx_bps : ℤ
  pub net_tx_bps : ℤ
  pub tun_in_bps : ℤ
  pub tun_out_bps : ℤ

pub record Ring (F : Floats) : Type 0 where
  pub buf : List (Sample F)
  pub head : ℕ
  pub size : ℕ

module _ (F : Floats) where
  -- Sample{}
  abbrev pub zero_sample : Sample F
  zero_sample = record {
    at_unix_ms = pos 0;
    cpu = F.zero_float;
    mem = F.zero_float;
    net_rx_bps = pos 0;
    net_tx_bps = pos 0;
    tun_in_bps = pos 0;
    tun_out_bps = pos 0;
  }

  pub new_ring : ℤ → Ring F
  new_ring capacity =
      let cap = if ltb_ℤ capacity (pos 1) then 1 else pos_part capacity in
      record { buf = replicate cap zero_sample; head = 0; size = 0 }

  pub add : Ring F → Sample F → Ring F
  add r s = record {
    buf = set r.buf r.head s;
    head = (r.head + 1) % length r.buf;
    size = if ltb r.size (length r.buf) then r.size + 1 else r.size;
  }

  -- `out = append(out, r.buf[(start+i)%len(r.buf)])` for the `n` values of `i` that are left
  pub collect : List (Sample F) → ℕ → ℕ → ℕ → List (Sample F)
  collect buf start i zero = []
  collect buf start i (suc n) =
      get_or buf ((start + i) % length buf) zero_sample ∷ collect buf start (i + 1) n

  -- `head - size + len(buf)`, with the addition first since `-` stops at 0
  pub snapshot : Ring F → List (Sample F)
  snapshot r = collect r.buf ((r.head + length r.buf - r.size) % length r.buf) 0 r.size

  -- the loop of `Since`, and `all[i:]`
  pub since_from : ℤ → List (Sample F) → List (Sample F)
  since_from since_ms [] = []
  since_from since_ms (s ∷ all) =
      let rest = since_from since_ms all in if ltb_ℤ s.at_unix_ms since_ms then rest else s ∷ all

  pub since : Ring F → ℤ → List (Sample F)
  since r since_ms = since_from since_ms (snapshot r)

  pub len : Ring F → ℕ
  len r = r.size
