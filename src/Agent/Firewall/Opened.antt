-- ===== src/Agent/Firewall/Opened.antt =====
-- What a synchronisation opens.
use frp_panel.Prelude.{
  ◌≡◌, ◌≢◌, refl, ap, ◌∙◌, Bool, true, false, not, ◌&&◌, ◌||◌, Option, none, some, List, [], ◌∷◌,
  if◌then◌else◌, Bool-cases, inl, inr, arith,
}
use frp_panel.Prelude.Text.{Bytes, same_bytes_iff}
use frp_panel.Agent.Firewall.{has_spec, UfwError, or_first, ufw_allow, add_missing}
use frp_panel.Agent.Firewall.Ufw.{Ufw, is_open}

pub same_some : (b : Bool) (x y : UfwError) → (if b then some x else or_first (some x) y) ≡ some x
same_some true x y = refl
same_some false x y = refl

module _ {W : Type 0} (run : List Bytes → W → W × Bytes × Bool) (u : Ufw run) (t : Bytes) where
  allow_keeps :
      (s : Bytes) (w : W) → is_open run u t w ≡ true → is_open run u t (ufw_allow run s w).0 ≡ true
  allow_keeps s w h = elim (Bool-cases (ufw_allow run s w).1) [
    | inl ok ↦ u.allow_ok s w ok t ∙ ground (arith, h)
    | inr failed ↦ rw (u.allow_failed s w failed) h
  ]

  pub add_missing-keeps :
      (have ss : List Bytes) (w : W) (e : Option UfwError)
      → is_open run u t w ≡ true
      → is_open run u t (add_missing run have ss w e).0 ≡ true
  unfolding add_missing
  add_missing-keeps have [] w e h = h
  add_missing-keeps have (s ∷ ss) w e h = elim (Bool-cases (has_spec s have)) [
    | inl old ↦ rw (old, add_missing) (add_missing-keeps have ss w e h)
    | inr new ↦
        rw (new, add_missing)
          (add_missing-keeps have ss (ufw_allow run s w).0 _ (allow_keeps s w h))
  ]

  add_missing-some :
      (have ss : List Bytes) (w : W) (x : UfwError)
      → (add_missing run have ss w (some x)).1 ≡ some x
  unfolding add_missing
  add_missing-some have [] w x = refl
  add_missing-some have (s ∷ ss) w x = elim (Bool-cases (has_spec s have)) [
    | inl old ↦ rw (old, add_missing) (add_missing-some have ss w x)
    | inr new ↦
        rw (new, add_missing)
          (ap (λ e. (add_missing run have ss (ufw_allow run s w).0 e).1)
              (same_some (ufw_allow run s w).1 x (UfwError.allow_failed s))
            ∙ add_missing-some have ss (ufw_allow run s w).0 x)
  ]

  add_missing-failed :
      (have ss : List Bytes) (w : W) (e : Option UfwError) (x : UfwError)
      → (add_missing run have ss w (or_first e x)).1 ≢ none
  add_missing-failed have ss w none x h = let s = add_missing-some have ss w x in cc
  add_missing-failed have ss w (some y) x h = let s = add_missing-some have ss w y in cc

  -- If no command fails, what is missing is added.
  pub add_missing-adds :
      (have ss : List Bytes) (w : W) (e : Option UfwError)
      → (add_missing run have ss w e).1 ≡ none
      → is_open run u t (add_missing run have ss w e).0
        ≡ (is_open run u t w || (has_spec t ss && not (has_spec t have)))
  unfolding add_missing has_spec
  add_missing-adds have [] w e h = ground arith
  add_missing-adds have (s ∷ ss) w e h = elim (Bool-cases (has_spec s have)) [
    | inl old ↦
        let h' = rw (old, add_missing) at h in
        rw (old, add_missing)
          (add_missing-adds have ss w e h' ∙ ground (arith, same_bytes_iff s t, old))
    | inr new ↦ elim (Bool-cases (ufw_allow run s w).1) [
      | inr failed ↦ absurd (
          add_missing-failed have ss (ufw_allow run s w).0 e (UfwError.allow_failed s)
            (rw (new, failed, add_missing) at h))
      | inl ok ↦
          let h' = rw (new, ok, add_missing) at h in
          rw (new, ok, add_missing)
            (add_missing-adds have ss (ufw_allow run s w).0 e h'
              ∙ ground (arith, u.allow_ok s w ok t, same_bytes_iff s t, new))
    ]
  ]
