-- ===== src/Agent/Firewall/Closed.antt =====
-- What a synchronisation closes.
use frp_panel.Prelude.{
  ◌≡◌, ◌≢◌, refl, ap, ◌∙◌, Bool, true, false, not, ◌&&◌, Option, none, some, List, [], ◌∷◌,
  Bool-cases, inl, inr, arith,
}
use frp_panel.Prelude.Text.{Bytes, same_bytes, same_bytes_iff}
use frp_panel.Agent.Firewall.Table.{specs}
use frp_panel.Agent.Firewall.{has_spec, UfwError, or_first, ufw_delete, drop_stale}
use frp_panel.Agent.Firewall.Ufw.{Ufw, is_open}
use frp_panel.Agent.Firewall.Opened.{same_some}

module _ {W : Type 0} (run : List Bytes → W → W × Bytes × Bool) (u : Ufw run) (t : Bytes) where
  delete_other :
      (s : Bytes) (w : W)
      → same_bytes s t ≡ false
      → is_open run u t (ufw_delete run s w).0 ≡ is_open run u t w
  delete_other s w h = elim (Bool-cases (ufw_delete run s w).1) [
    | inl ok ↦ u.delete_ok s w ok t ∙ ground (arith, h)
    | inr failed ↦ ap (λ rs. has_spec t (specs rs)) (u.delete_failed s w failed)
  ]

  pub drop_stale-wanted :
      (want ss : List Bytes) (w : W) (e : Option UfwError)
      → has_spec t want ≡ true
      → is_open run u t (drop_stale run want ss w e).0 ≡ is_open run u t w
  unfolding drop_stale
  drop_stale-wanted want [] w e h = refl
  drop_stale-wanted want (s ∷ ss) w e h = elim (Bool-cases (has_spec s want)) [
    | inl needed ↦ rw (needed, drop_stale) (drop_stale-wanted want ss w e h)
    | inr stale ↦
        rw (stale, drop_stale)
          (drop_stale-wanted want ss (ufw_delete run s w).0 _ h
            ∙ delete_other s w (ground (arith, same_bytes_iff s t)))
  ]

  drop_stale-some :
      (want ss : List Bytes) (w : W) (x : UfwError) → (drop_stale run want ss w (some x)).1 ≡ some x
  unfolding drop_stale
  drop_stale-some want [] w x = refl
  drop_stale-some want (s ∷ ss) w x = elim (Bool-cases (has_spec s want)) [
    | inl needed ↦ rw (needed, drop_stale) (drop_stale-some want ss w x)
    | inr stale ↦
        rw (stale, drop_stale)
          (ap (λ e. (drop_stale run want ss (ufw_delete run s w).0 e).1)
              (same_some (ufw_delete run s w).1 x (UfwError.delete_failed s))
            ∙ drop_stale-some want ss (ufw_delete run s w).0 x)
  ]

  drop_stale-failed :
      (want ss : List Bytes) (w : W) (e : Option UfwError) (x : UfwError)
      → (drop_stale run want ss w (or_first e x)).1 ≢ none
  drop_stale-failed want ss w none x h = let s = drop_stale-some want ss w x in cc
  drop_stale-failed want ss w (some y) x h = let s = drop_stale-some want ss w y in cc

  -- A failure before is a failure in the end.
  pub drop_stale-first :
      (want ss : List Bytes) (w : W) (e : Option UfwError)
      → (drop_stale run want ss w e).1 ≡ none
      → e ≡ none
  drop_stale-first want ss w none h = refl
  drop_stale-first want ss w (some x) h = let s = drop_stale-some want ss w x in cc

  -- If no command fails, what is not wanted is dropped.
  pub drop_stale-drops :
      (want ss : List Bytes) (w : W) (e : Option UfwError)
      → (drop_stale run want ss w e).1 ≡ none
      → is_open run u t (drop_stale run want ss w e).0
        ≡ (is_open run u t w && not (has_spec t ss && not (has_spec t want)))
  unfolding drop_stale has_spec
  drop_stale-drops want [] w e h = ground arith
  drop_stale-drops want (s ∷ ss) w e h = elim (Bool-cases (has_spec s want)) [
    | inl needed ↦
        let h' = rw (needed, drop_stale) at h in
        rw (needed, drop_stale)
          (drop_stale-drops want ss w e h' ∙ ground (arith, same_bytes_iff s t, needed))
    | inr stale ↦ elim (Bool-cases (ufw_delete run s w).1) [
      | inr failed ↦ absurd (
          drop_stale-failed want ss (ufw_delete run s w).0 e (UfwError.delete_failed s)
            (rw (stale, failed, drop_stale) at h))
      | inl ok ↦
          let h' = rw (stale, ok, drop_stale) at h in
          rw (stale, ok, drop_stale)
            (drop_stale-drops want ss (ufw_delete run s w).0 e h'
              ∙ ground (arith, u.delete_ok s w ok t, same_bytes_iff s t, stale))
    ]
  ]
