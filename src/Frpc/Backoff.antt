-- ===== src/Frpc/Backoff.antt =====
-- The wait before the next start, in `supervise` of internal/panel/frpcmgr.go and `Run` of
-- internal/panel/nodeconn.go, in seconds. How long a try lasted is in nanoseconds.
use native.Mathlib.Numerals.{unary_clauses}
use frp_panel.Prelude.{
  ℕ, ◌+◌, ◌*◌, ◌^◌, ◌≤◌, ◌≡◌, refl, ap, ◌∙◌, false, List, [], ◌∷◌, arith, if◌then◌else◌, ltb, min,
}

abbrev pub second : ℕ
second = 1000000000

-- how long a try lasted decides whether the wait starts again from one second
unfoldable pub reset_backoff : ℕ → ℕ → ℕ → ℕ
reset_backoff healthy lasted backoff = if ltb healthy lasted then 1 else backoff

-- `backoff *= 2`, at most a minute
unfoldable pub next_backoff : ℕ → ℕ
next_backoff backoff = if ltb 60 (backoff * 2) then 60 else backoff * 2

-- the waits after tries that lasted so long; a process that fails to start lasts 0
unfoldable pub waits : ℕ → ℕ → List ℕ → List ℕ
waits healthy backoff [] = []
waits healthy backoff (lasted ∷ ls) =
    let wait = reset_backoff healthy lasted backoff in wait ∷ waits healthy (next_backoff wait) ls

unfoldable pub supervise_waits : List ℕ → List ℕ
supervise_waits ls = waits (30 * second) 1 ls

unfoldable pub run_waits : List ℕ → List ℕ
run_waits ls = waits (60 * second) 1 ls

abbrev pub AllShort : ℕ → List ℕ → Type 0
AllShort healthy [] = Unit {0}
AllShort healthy (l ∷ ls) = (l ≤ healthy) × AllShort healthy ls

-- 2 ^ k, 2 ^ (k + 1), … seconds, at most a minute each
abbrev pub doubling : ℕ → List ℕ → List ℕ
doubling k [] = []
doubling k (l ∷ ls) = min (2 ^ k) 60 ∷ doubling (k + 1) ls

next_backoff-min : (x : ℕ) → next_backoff (min x 60) ≡ min (x * 2) 60
unfolding next_backoff
next_backoff-min x = ground arith

double : (k : ℕ) → 2 ^ k * 2 ≡ 2 ^ (k + 1)
double k = simp unary_clauses (grind arith)

waits-doubling :
    (healthy : ℕ) (ls : List ℕ) (k : ℕ)
    → AllShort healthy ls
    → waits healthy (min (2 ^ k) 60) ls ≡ doubling k ls
unfolding waits reset_backoff
waits-doubling healthy [] k h = refl
waits-doubling healthy (l ∷ ls) k h = rw short (
    ap (λ ws. min (2 ^ k) 60 ∷ ws)
      (ap (λ b. waits healthy b ls) (next_backoff-min (2 ^ k) ∙ ap (λ t. min t 60) (double k))
        ∙ waits-doubling healthy ls (k + 1) h.1))
  where
    short : ltb healthy l ≡ false
    short = ground arith

-- A process that keeps failing within half a minute, and a node whose sessions last no more than a
-- minute, are tried again after 1, 2, 4, 8, 16, 32 and then always 60 seconds.
pub waits_double :
    (ls ms : List ℕ)
    → AllShort (30 * second) ls
    → AllShort (60 * second) ms
    → (supervise_waits ls ≡ doubling 0 ls) × (run_waits ms ≡ doubling 0 ms)
unfolding supervise_waits run_waits
waits_double ls ms h h' =
    (waits-doubling (30 * second) ls 0 h, waits-doubling (60 * second) ms 0 h')
