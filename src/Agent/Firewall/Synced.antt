-- ===== src/Agent/Firewall/Synced.antt =====
-- The rules of ufw after a synchronisation.
use frp_panel.Prelude.{
  ◌≡◌, refl, sym, ap, ap₂, ◌∙◌, Bool, true, ◌||◌, Option, none, some, List, [], ◌∷◌, Bool-cases,
  Option-cases, inl, inr, arith,
}
use frp_panel.Prelude.Text.{Bytes, same_bytes, same_bytes_iff}
use frp_panel.Protocol.Message.{PortSpec}
use frp_panel.Agent.Firewall.Table.{specs, parse-join}
use frp_panel.Agent.Firewall.{
  has_spec, put_sorted, sorted_keys, parse_managed_specs, wanted, ufw_available, ufw_managed_specs,
  add_missing, sync_specs, ufw_sync,
}
use frp_panel.Agent.Firewall.Ufw.{Ufw, is_open, status, numbered}
use frp_panel.Agent.Firewall.Opened.{add_missing-keeps, add_missing-adds}
use frp_panel.Agent.Firewall.Closed.{drop_stale-wanted, drop_stale-first, drop_stale-drops}

has_spec-put_sorted :
    (t s : Bytes) (ss : List Bytes)
    → has_spec t (put_sorted s ss) ≡ (same_bytes s t || has_spec t ss)
unfolding has_spec put_sorted
has_spec-put_sorted t s [] = refl
has_spec-put_sorted t s (u ∷ us) =
    ground (
      arith,
      same_bytes_iff u s,
      same_bytes_iff u t,
      same_bytes_iff s t,
      has_spec-put_sorted t s us,
    )

has_spec-sorted_keys : (t : Bytes) (ss : List Bytes) → has_spec t (sorted_keys ss) ≡ has_spec t ss
unfolding has_spec sorted_keys
has_spec-sorted_keys t [] = refl
has_spec-sorted_keys t (s ∷ ss) =
    has_spec-put_sorted t s (sorted_keys ss)
    ∙ ap (λ b. same_bytes s t || b) (has_spec-sorted_keys t ss)

module _ {W : Type 0} (run : List Bytes → W → W × Bytes × Bool) (u : Ufw run) (t : Bytes) where
  -- the specs that are read are those of the rules
  managed :
      (w : W) (have : List Bytes)
      → (ufw_managed_specs run w).1 ≡ some have
      → have ≡ specs (u.rows w)
  unfolding ufw_managed_specs
  managed w have h = elim (Bool-cases (numbered run w).2) [
    | inl ok ↦
        let h' = rw ok at h in
        let e : parse_managed_specs (numbered run w).1 ≡ have = cc in
        sym e
        ∙ ap parse_managed_specs (u.table w ok)
        ∙ parse-join u.first u.head (u.rows w) u.untagged (u.rows_AllRows w) (u.plain w)
    | inr failed ↦ let h' = rw failed at h in absurd (cc)
  ]

  sync_specs-converges :
      (want have : List Bytes) (w : W)
      → is_open run u t w ≡ has_spec t have
      → (sync_specs run want w (some have)).1 ≡ none
      → is_open run u t (sync_specs run want w (some have)).0 ≡ has_spec t want
  unfolding sync_specs
  sync_specs-converges want have w e h =
      let added = add_missing run have (sorted_keys want) w none in
      let no_error = drop_stale-first run u t want (sorted_keys have) added.0 added.1 h in
      drop_stale-drops run u t want (sorted_keys have) added.0 added.1 h
      ∙ ground (
        arith,
        e,
        add_missing-adds run u t have (sorted_keys want) w none no_error,
        has_spec-sorted_keys t want,
        has_spec-sorted_keys t have,
      )

  -- the host after the two queries
  abbrev queried : W → W
  queried w = (numbered run (status run w).0).0

  queried_keeps : (w : W) → is_open run u t (queried w) ≡ is_open run u t w
  queried_keeps w =
      ap (λ rs. has_spec t (specs rs)) (u.numbered_keeps (status run w).0 ∙ u.status_keeps w)

  available_state : (w : W) → (ufw_available run w).0 ≡ (status run w).0
  unfolding ufw_available
  available_state w = refl

  managed_state : (w : W) → (ufw_managed_specs run w).0 ≡ (numbered run w).0
  unfolding ufw_managed_specs
  managed_state w = refl

  ufw_sync-read :
      (ports : List PortSpec) (w : W)
      → (ufw_available run w).1 ≡ true
      → ufw_sync run ports w
        ≡ sync_specs run (wanted ports) (queried w) (ufw_managed_specs run (status run w).0).1
  unfolding ufw_sync
  ufw_sync-read ports w h =
      rw h refl
      ∙ ap₂ (sync_specs run (wanted ports))
          (managed_state (ufw_available run w).0 ∙ ap (λ v. (numbered run v).0) (available_state w))
          (ap (λ v. (ufw_managed_specs run v).1) (available_state w))

  module _ (ports : List PortSpec) (w : W) (available : (ufw_available run w).1 ≡ true) where
    is_read :
        (have : List Bytes)
        → (ufw_managed_specs run (status run w).0).1 ≡ some have
        → is_open run u t (queried w) ≡ has_spec t have
    is_read have e =
        ap (λ rs. has_spec t (specs rs)) (u.numbered_keeps (status run w).0)
        ∙ ap (has_spec t) (sym (managed (status run w).0 have e))

    -- If ufw is active and no command fails, the agent's rules are afterwards those of the ports.
    pub ufw_sync-converges :
        (ufw_sync run ports w).1 ≡ none
        → is_open run u t (ufw_sync run ports w).0 ≡ has_spec t (wanted ports)
    unfolding sync_specs
    ufw_sync-converges h = elim (Option-cases (ufw_managed_specs run (status run w).0).1) [
      | inl e ↦
          let h' =
            sym (
              ap (λ r. r.1)
                (ufw_sync-read ports w available
                  ∙ ap (sync_specs run (wanted ports) (queried w)) e))
            ∙ h in
          absurd (cc)
      | inr (have, e) ↦
          let q =
            ufw_sync-read ports w available ∙ ap (sync_specs run (wanted ports) (queried w)) e in
          ap (λ r. is_open run u t r.0) q
          ∙ sync_specs-converges (wanted ports) have (queried w) (is_read have e)
              (sym (ap (λ r. r.1) q) ∙ h)
    ]

  sync_specs-keeps :
      (want : List Bytes) (v : W) (o : Option (List Bytes))
      → is_open run u t v ≡ true
      → has_spec t want ≡ true
      → is_open run u t (sync_specs run want v o).0 ≡ true
  unfolding sync_specs
  sync_specs-keeps want v none h k = h
  sync_specs-keeps want v (some have) h k =
      drop_stale-wanted run u t want (sorted_keys have) _ _ k
      ∙ add_missing-keeps run u t have (sorted_keys want) v none h

  available_keeps : (w : W) → is_open run u t (ufw_available run w).0 ≡ is_open run u t w
  available_keeps w =
      ap (is_open run u t) (available_state w) ∙ ap (λ rs. has_spec t (specs rs)) (u.status_keeps w)

  -- Whatever commands fail, the one that asks for the state of ufw included, and whether ufw is active
  -- or not: a rule that is there for one of the ports stays.
  pub ufw_sync-keeps :
      (ports : List PortSpec) (w : W)
      → is_open run u t w ≡ true
      → has_spec t (wanted ports) ≡ true
      → is_open run u t (ufw_sync run ports w).0 ≡ true
  unfolding ufw_sync
  ufw_sync-keeps ports w h k = elim (Bool-cases (ufw_available run w).1) [
    | inl active ↦
        ap (λ r. is_open run u t r.0) (ufw_sync-read ports w active)
        ∙ sync_specs-keeps (wanted ports) (queried w) (ufw_managed_specs run (status run w).0).1
            (queried_keeps w ∙ h) k
    | inr inactive ↦ rw inactive (available_keeps w ∙ h)
  ]
