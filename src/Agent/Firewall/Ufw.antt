-- ===== src/Agent/Firewall/Ufw.antt =====
-- What the host's ufw is taken to do.
use frp_panel.Prelude.{◌≡◌, Bool, true, false, not, ◌&&◌, ◌||◌, List, [], ◌∷◌, ◌++◌, map}
use frp_panel.Prelude.Text.{Bytes, codes, same_bytes}
use frp_panel.Agent.Firewall.RuleLine.{Row, row_line}
use frp_panel.Agent.Firewall.Table.{join, specs, AllPlain, AllRows, AllUntagged}
use frp_panel.Agent.Firewall.{has_spec, ufw_allow, ufw_delete}

module _ {W : Type 0} (run : List Bytes → W → W × Bytes × Bool) where
  abbrev pub status : W → W × Bytes × Bool
  status = run (codes "ufw" ∷ codes "status" ∷ [])

  abbrev pub numbered : W → W × Bytes × Bool
  numbered = run (codes "ufw" ∷ codes "status" ∷ codes "numbered" ∷ [])

  -- What ufw does: it prints some lines and a row for each rule, a query changes no rule, and of
  -- the rules with the agent's comment `allow` adds one and `delete` drops one, if they succeed.
  pub record Ufw : Type 0 where
    pub rows : W → List Row
    pub first : Bytes
    pub head : List Bytes
    pub untagged : AllUntagged (first ∷ head)
    pub rows_AllRows : (w : W) → AllRows (rows w)
    pub plain : (w : W) → AllPlain (first ∷ head ++ map row_line (rows w))
    pub table :
        (w : W)
        → (numbered w).2 ≡ true
        → (numbered w).1 ≡ join first (head ++ map row_line (rows w))
    pub status_keeps : (w : W) → rows (status w).0 ≡ rows w
    pub numbered_keeps : (w : W) → rows (numbered w).0 ≡ rows w
    pub allow_ok :
        (s : Bytes) (w : W)
        → (ufw_allow run s w).1 ≡ true
        → (t : Bytes)
        → has_spec t (specs (rows (ufw_allow run s w).0))
          ≡ (same_bytes s t || has_spec t (specs (rows w)))
    pub allow_failed :
        (s : Bytes) (w : W) → (ufw_allow run s w).1 ≡ false → rows (ufw_allow run s w).0 ≡ rows w
    pub delete_ok :
        (s : Bytes) (w : W)
        → (ufw_delete run s w).1 ≡ true
        → (t : Bytes)
        → has_spec t (specs (rows (ufw_delete run s w).0))
          ≡ (not (same_bytes s t) && has_spec t (specs (rows w)))
    pub delete_failed :
        (s : Bytes) (w : W) → (ufw_delete run s w).1 ≡ false → rows (ufw_delete run s w).0 ≡ rows w

  -- whether the agent's rule `t` is there
  abbrev pub is_open : Ufw → Bytes → W → Bool
  is_open u t w = has_spec t (specs (u.rows w))
