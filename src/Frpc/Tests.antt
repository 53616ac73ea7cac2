-- ===== src/Frpc/Tests.antt =====
-- Three failures of a process, and a session that ends soon.
use frp_panel.Prelude.{◌≡◌, [], ◌∷◌, arith}
use frp_panel.Frpc.Backoff.{supervise_waits, run_waits, waits_double}

waits_double_example :
    (supervise_waits (0 ∷ 5 ∷ 30000000000 ∷ []) ≡ 1 ∷ 2 ∷ 4 ∷ []) × (run_waits (7 ∷ []) ≡ 1 ∷ [])
waits_double_example =
    waits_double (0 ∷ 5 ∷ 30000000000 ∷ []) (7 ∷ []) (omega arith, (omega arith, (omega arith, tt)))
      (omega arith, tt)
