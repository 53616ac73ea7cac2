-- ===== src/Protocol/Sign.antt =====
-- internal/protocol/sign.go: the signature of an envelope and the window against replays. HMAC-SHA256
-- in hex and the decimal text of a number are arguments. A text is its bytes.
use frp_panel.Prelude.{
  ℕ, ◌+◌, ◌^◌, ◌<◌, ◌≡◌, refl, ap, ◌∙◌, true, ◌&&◌, not, Option, none, some, [], ◌∷◌, ◌++◌, arith,
  if◌then◌else◌,
}
use frp_panel.Prelude.Text.{Bytes, same_bytes, same_bytes_iff}
use frp_panel.Prelude.Int.{ℤ, pos, pos_part, neg_part, ◌-ℤ◌, ◌-64◌, ltb_ℤ, leb_ℤ, wrap64_of_IsInt64}

pub record Envelope : Type 0 where
  pub ver : ℤ
  pub typ : Bytes
  pub id : Bytes
  pub ts : ℤ
  pub nonce : Bytes
  pub payload : Bytes
  pub sig : Bytes

pub record Crypto : Type 0 where
  -- the key, the message
  pub hmac_hex : Bytes → Bytes → Bytes
  pub decimal : ℤ → Bytes

pub data VerifyError : Type 0 where
  bad_sig replay : VerifyError

module _ (crypto : Crypto) where
  unfoldable pub canonical : Envelope → Bytes
  canonical e =
      crypto.decimal e.ver
      ++ 10 ∷ e.typ
      ++ 10 ∷ e.id
      ++ 10 ∷ crypto.decimal e.ts
      ++ 10 ∷ e.nonce
      ++ 10 ∷ e.payload

  unfoldable pub sign : Bytes → Envelope → Envelope
  sign token e = record e { sig = crypto.hmac_hex token (canonical e) }

  -- `d`, in int64
  unfoldable pub skew : ℤ → ℤ → ℤ
  skew now ts = let d = now -64 ts in if ltb_ℤ d (pos 0) then pos 0 -64 d else d

  -- subtle.ConstantTimeCompare is `same_bytes`.
  unfoldable pub verify : Envelope → Bytes → ℤ → Option VerifyError
  verify e token now =
      if not (same_bytes (crypto.hmac_hex token (canonical (record e { sig = [] }))) e.sig)
      then some bad_sig
      else if ltb_ℤ (pos 0) now && ltb_ℤ (pos 60) (skew now e.ts)
      then some replay
      else none

  same_bytes_refl : (bs : Bytes) → same_bytes bs bs ≡ true
  same_bytes_refl bs = (same_bytes_iff bs bs).1 refl

  minus : (a b : ℕ) → a < 2 ^ 63 → b < 2 ^ 63 → pos a -64 pos b ≡ pos a -ℤ pos b
  unfolding ◌-64◌ ◌-ℤ◌
  minus a b h h' = wrap64_of_IsInt64 (pos a -ℤ pos b) (ground arith)

  minus_back : (d : ℤ) → pos_part d < 2 ^ 63 → neg_part d < 2 ^ 63 → pos 0 -64 d ≡ pos 0 -ℤ d
  unfolding ◌-64◌ ◌-ℤ◌
  minus_back d h h' = wrap64_of_IsInt64 (pos 0 -ℤ d) (ground arith)

  within_int64 :
      (a b : ℕ)
      → a < 2 ^ 63
      → b < 2 ^ 63
      → (pos_part (pos a -ℤ pos b) < 2 ^ 63) × (neg_part (pos a -ℤ pos b) < 2 ^ 63)
  unfolding ◌-ℤ◌
  within_int64 a b h h' = ground arith

  abbrev exact_skew : ℤ → ℤ
  exact_skew d = if ltb_ℤ d (pos 0) then pos 0 -ℤ d else d

  skew_exact :
      (now ts : ℕ)
      → now < 2 ^ 63
      → ts < 2 ^ 63
      → skew (pos now) (pos ts) ≡ exact_skew (pos now -ℤ pos ts)
  unfolding skew
  skew_exact now ts h h' =
      let (p, q) = within_int64 now ts h h' in
      rw (minus now ts h h', minus_back (pos now -ℤ pos ts) p q) refl

  exact_skew-window :
      (now ts : ℕ)
      → ltb_ℤ (pos 60) (exact_skew (pos now -ℤ pos ts))
        ≡ not (leb_ℤ (pos now) (pos (ts + 60)) && leb_ℤ (pos ts) (pos (now + 60)))
  unfolding ◌-ℤ◌
  exact_skew-window now ts = ground arith

  -- An envelope that was signed with the token passes exactly if it is no more than 60 seconds from
  -- the time of the check, or if that is 0; neither time is negative.
  pub verify-sign :
      (e : Envelope) (token : Bytes) (now ts : ℕ)
      → now < 2 ^ 63
      → ts < 2 ^ 63
      → verify (sign token (record e { ts = pos ts })) token (pos now) ≡ (
          if ltb_ℤ (pos 0) (pos now)
            && not (leb_ℤ (pos now) (pos (ts + 60)) && leb_ℤ (pos ts) (pos (now + 60)))
          then some replay
          else none)
  unfolding verify sign canonical
  verify-sign e token now ts h h' =
      rw (same_bytes_refl (crypto.hmac_hex token (canonical (record e { ts = pos ts })))) (
        ap (λ b. if ltb_ℤ (pos 0) (pos now) && b then some replay else none)
          (ap (ltb_ℤ (pos 60)) (skew_exact now ts h h') ∙ exact_skew-window now ts))
