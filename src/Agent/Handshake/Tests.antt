-- ===== src/Agent/Handshake/Tests.antt =====
-- Ten connections that send no envelope, a second apart, one of another address two minutes later, and
-- one more.
use frp_panel.Prelude.{ℕ, zero, suc, ◌+◌, ◌*◌, ◌≡◌, refl, true, List, [], ◌∷◌, arith}
use frp_panel.Prelude.Int.{pos, pos_part}
use frp_panel.Limiter.{
  second, new_limiter, blocked, fail, maybe_prune, prune, history, keep_recent, update,
  keep_history, prune_history,
}
use frp_panel.Limiter.Bans.{failures}
use frp_panel.Protocol.Sign.{Crypto}
use frp_panel.Agent.Handshake.{Attempt, garbage, too_many_failures, handshake, receive}
use frp_panel.Agent.Handshake.Turned.{handshakes, calls_run, calls_of, handshake-turned_away}

abbrev toy_crypto : Crypto
toy_crypto = record { hmac_hex = λ key message. key; decimal = λ z. pos_part z ∷ [] }

abbrev knock : ℕ → Attempt
knock n = record {
  ip = "10.0.0.9";
  now = (1000 + n) * second;
  later = (1000 + n) * second;
  unix = pos 0;
  upgraded = true;
  message = garbage;
}

abbrev knocks : ℕ → ℕ → List Attempt
knocks n zero = []
knocks n (suc k) = knock n ∷ knocks (n + 1) k

-- another address fails when the minute is over
abbrev stranger : Attempt
stranger = record (knock 120) { ip = "10.0.0.7" }

handshake-turned_away_example :
    (let l =
        handshakes toy_crypto []
          (stranger ∷ knock 130 ∷ [])
          (handshakes toy_crypto [] (knocks 0 10) new_limiter) in
      (handshake toy_crypto [] (knock 500) l).1)
    ≡ too_many_failures
unfolding new_limiter calls_run calls_of handshake receive blocked failures fail maybe_prune prune
    history keep_recent update prune_history keep_history
handshake-turned_away_example =
    handshake-turned_away toy_crypto [] (knocks 0 10) (stranger ∷ knock 130 ∷ []) new_limiter
      (1000 * second) (knock 500) refl (omega arith) (omega arith) (omega arith) (omega arith)
