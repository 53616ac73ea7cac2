-- ===== src/Metrics/Float.antt =====
-- Go's float64, which no code here implements: a type with the operations that the pipeline calls.
use frp_panel.Prelude.{ℕ}

pub record Floats : Type 1 where
  pub Float : Type 0
  pub zero_float : Float
  pub add_float : Float → Float → Float
  -- the quotient by `float64(n)`
  pub div_float : Float → ℕ → Float
