-- ===== src/Selfupdate/Verified.antt =====
-- What an update leaves in place of the binary.
use frp_panel.Prelude.{
  ◌^◌, ◌≤◌, ◌≡◌, ◌⊎◌, inl, inr, refl, ap, ◌∙◌, Bool, true, false, not, Option, none, some, arith,
  if◌then◌else◌, ltb, length,
}
use frp_panel.Prelude.Text.{Bytes, codes, same_bytes, same_bytes_iff}
use frp_panel.Selfupdate.{
  Http, Files, Disk, UpdateError, fetch, sum_for, apply, install, check_asset, get_asset, with_sums,
  run,
}

apply-target :
    (disk : Disk) (bin : Bytes) (fs : Files)
    → let (fs', replaced) = apply disk bin fs in
      ((replaced ≡ false) × (fs'.target ≡ fs.target)) ⊎ ((replaced ≡ true) × (fs'.target ≡ bin))
unfolding apply
apply-target disk bin fs = ground arith

module _ (sha256_hex : Bytes → Bytes) (http : Http) (disk : Disk) where
  -- the old binary and an error, or the new one, which the list of sums names
  pub data IsVerified (base mirror asset : Bytes) (fs : Files) (q : Files × Option UpdateError)
      : Type 0 where
    kept :
        (e : UpdateError)
        → q.1 ≡ some e
        → q.0.target ≡ fs.target
        → IsVerified base mirror asset fs q
    replaced :
        (sums bin : Bytes)
        → fetch http base mirror (codes "sha256sums.txt") ≡ some sums
        → fetch http base mirror asset ≡ some bin
        → sum_for sums asset ≡ some (sha256_hex bin)
        → 2 ^ 20 ≤ length bin
        → q.1 ≡ none
        → q.0.target ≡ bin
        → IsVerified base mirror asset fs q

  module _ (base mirror asset : Bytes) (fs : Files) where
    install-IsVerified :
        (sums bin : Bytes)
        → fetch http base mirror (codes "sha256sums.txt") ≡ some sums
        → fetch http base mirror asset ≡ some bin
        → sum_for sums asset ≡ some (sha256_hex bin)
        → 2 ^ 20 ≤ length bin
        → IsVerified base mirror asset fs (install sha256_hex http disk bin fs)
    unfolding install
    install-IsVerified sums bin s b e l = elim (apply-target disk bin fs) [
      | inl (no_new, same) ↦
          kept UpdateError.not_replaced
            (ap (λ (r : Bool). if r then none else some UpdateError.not_replaced) no_new) same
      | inr (new, there) ↦
          replaced sums bin s b e l
            (ap (λ (r : Bool). if r then none else some UpdateError.not_replaced) new) there
    ]

    IsVerified-if :
        (c : Bool) (q : Files × Option UpdateError) (e : UpdateError)
        → (c ≡ false → IsVerified base mirror asset fs q)
        → IsVerified base mirror asset fs (if c then (fs, some e) else q)
    IsVerified-if true q e h = kept e refl refl
    IsVerified-if false q e h = h refl

    check_asset-IsVerified :
        (sums want : Bytes) (found : Option Bytes)
        → fetch http base mirror (codes "sha256sums.txt") ≡ some sums
        → fetch http base mirror asset ≡ found
        → sum_for sums asset ≡ some want
        → IsVerified base mirror asset fs (check_asset sha256_hex http disk want found fs)
    unfolding check_asset
    check_asset-IsVerified sums want none s b e = kept UpdateError.no_asset refl refl
    check_asset-IsVerified sums want (some bin) s b e =
        IsVerified-if (ltb (length bin) (2 ^ 20)) _ UpdateError.too_small λ long.
          IsVerified-if (not (same_bytes (sha256_hex bin) want)) _ UpdateError.wrong_sum λ right.
            install-IsVerified sums bin s b (e ∙ ap some (same_sum (sha256_hex bin) want right))
              (ground arith)
      where
        same_sum : (x y : Bytes) → not (same_bytes x y) ≡ false → y ≡ x
        same_sum x y h = ground (arith, same_bytes_iff x y)

    get_asset-IsVerified :
        (sums : Bytes) (want : Option Bytes)
        → fetch http base mirror (codes "sha256sums.txt") ≡ some sums
        → sum_for sums asset ≡ want
        → IsVerified base mirror asset fs (get_asset sha256_hex http disk base mirror asset want fs)
    unfolding get_asset
    get_asset-IsVerified sums none s e = kept UpdateError.no_entry refl refl
    get_asset-IsVerified sums (some want) s e =
        check_asset-IsVerified sums want (fetch http base mirror asset) s refl e

    with_sums-IsVerified :
        (sums : Option Bytes)
        → fetch http base mirror (codes "sha256sums.txt") ≡ sums
        → IsVerified base mirror asset fs (with_sums sha256_hex http disk base mirror asset sums fs)
    unfolding with_sums
    with_sums-IsVerified none s = kept UpdateError.no_sums refl refl
    with_sums-IsVerified (some sums) s = get_asset-IsVerified sums (sum_for sums asset) s refl

    -- Whatever the servers send and whatever fails: an update ends with an error and the old binary, or
    -- without one and with a binary of at least a megabyte that was downloaded and has the sum that
    -- the downloaded list has for it.
    pub run-IsVerified :
        IsVerified base mirror asset fs (run sha256_hex http disk base mirror asset fs)
    unfolding run
    run-IsVerified = with_sums-IsVerified (fetch http base mirror (codes "sha256sums.txt")) refl
