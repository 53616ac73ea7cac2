-- ===== src/Limiter/Tests.antt =====
-- Five failures of an address within a minute, with another address in between.
use frp_panel.Prelude.{◌≡◌, ◌*◌, refl, true, List, [], ◌∷◌, arith}
use frp_panel.Limiter.{new_limiter, blocked, login_policy, second}
use frp_panel.Limiter.Bans.{Call, failed, checked, calls, failures, blocked_after}

abbrev attack : List Call
attack =
    failed "10.0.0.1" (1000 * second)
    ∷ failed "10.0.0.2" (1001 * second)
    ∷ failed "10.0.0.1" (1002 * second)
    ∷ checked "10.0.0.1" (1003 * second)
    ∷ failed "10.0.0.1" (1004 * second)
    ∷ failed "10.0.0.1" (1005 * second)
    ∷ failed "10.0.0.1" (1006 * second)
    ∷ []

blocked_after_example :
    (blocked "10.0.0.1" (1599 * second) (calls login_policy attack new_limiter)).1 ≡ true
unfolding new_limiter failures
blocked_after_example =
    blocked_after login_policy "10.0.0.1" (1000 * second) (1599 * second) attack new_limiter refl
      (omega arith) (ground arith) (ground arith) (omega arith)
