-- ===== src/Frpc/Throttle.antt =====
-- `throttled` of internal/panel/frpcmgr.go. The time is an argument, in nanoseconds.
use Prim.Native.String.{String}
use text.Mathlib.Text.{◌==◌ as str_eq}
use frp_panel.Prelude.{ℕ, ◌+◌, ◌≡◌, Bool, ◌&&◌, List, [], ◌∷◌, arith, if◌then◌else◌, ltb, length}

pub record Throttle : Type 0 where
  pub last_key : String
  pub last_emit : ℕ
  pub suppressed : ℕ

-- a line of the log, with the number of lines that it stands for besides itself
pub record Line : Type 0 where
  pub key : String
  pub folded : ℕ

unfoldable pub same_again : Throttle → String → ℕ → Bool
same_again t key now = str_eq key t.last_key && ltb now (t.last_emit + 300000000000)

-- the state, and the lines so far, newest first
unfoldable pub throttled : Throttle × List Line → String × ℕ → Throttle × List Line
throttled (t, lines) (key, now) =
    if same_again t key now then (record t { suppressed = t.suppressed + 1 }, lines) else (
      record { last_key = key; last_emit = now; suppressed = 0 },
      record { key = key; folded = t.suppressed } ∷ lines,
    )

unfoldable pub throttled_all : Throttle × List Line → List (String × ℕ) → Throttle × List Line
throttled_all s [] = s
throttled_all s (c ∷ cs) = throttled_all (throttled s c) cs

-- the calls that the lines stand for
unfoldable pub total : List Line → ℕ
total [] = 0
total (l ∷ ls) = 1 + l.folded + total ls

total-throttled :
    (s : Throttle × List Line) (c : String × ℕ)
    → total (throttled s c).1 + (throttled s c).0.suppressed ≡ total s.1 + s.0.suppressed + 1
unfolding total throttled
total-throttled (t, lines) (key, now) = ground arith

-- No line is lost: the calls are those that the lines stand for and those still suppressed.
total-throttled_all :
    (cs : List (String × ℕ)) (s : Throttle × List Line)
    → total (throttled_all s cs).1 + (throttled_all s cs).0.suppressed
      ≡ total s.1 + s.0.suppressed + length cs
unfolding throttled_all
total-throttled_all [] s = omega arith
total-throttled_all (c ∷ cs) s =
    omega (arith, total-throttled_all cs (throttled s c), total-throttled s c)
