-- ===== src/Protocol/Tests.antt =====
-- An envelope that is signed and checked 30 seconds later, with a toy code in place of HMAC.
use frp_panel.Prelude.{◌≡◌, none, [], ◌∷◌, ◌++◌, arith}
use frp_panel.Prelude.Int.{pos, pos_part}
use frp_panel.Protocol.Sign.{Envelope, Crypto, sign, verify, verify-sign}

abbrev toy_crypto : Crypto
toy_crypto = record { hmac_hex = λ key message. key ++ message; decimal = λ z. pos_part z ∷ [] }

abbrev heartbeat : Envelope
heartbeat = record {
  ver = pos 1;
  typ = 104 ∷ 98 ∷ [];
  id = 1 ∷ [];
  ts = pos 0;
  nonce = 7 ∷ [];
  payload = [];
  sig = [];
}

verify-sign_example :
    verify toy_crypto
      (sign toy_crypto (1 ∷ 2 ∷ []) (record heartbeat { ts = pos 1000 }))
      (1 ∷ 2 ∷ [])
      (pos 1030)
    ≡ none
verify-sign_example =
    verify-sign toy_crypto heartbeat (1 ∷ 2 ∷ []) 1030 1000 (omega arith) (omega arith)
