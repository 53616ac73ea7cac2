-- ===== src/Panel/Settings/Stages.antt =====
-- What each part of a request does to the settings.
use frp_panel.Prelude.{
  ◌≡◌, refl, ◌∙◌, Bool, true, false, not, ◌||◌, ◌&&◌, suc, Option, none, some, [], arith,
  if◌then◌else◌, Bool-cases, inl, inr, ltb, length,
}
use frp_panel.Prelude.Int.{ℤ, pos, ◌≤ℤ◌, ltb_ℤ}
use frp_panel.Prelude.Text.{
  Bytes, bytes_eq, codes, same_bytes, same_bytes_iff, has_prefix, trim_space,
}
use frp_panel.Prelude.Decimal.{decimal}
use frp_panel.Prelude.Assoc.{lookup, lookup-insert}
use frp_panel.Panel.Errors.{validation}
use frp_panel.Panel.Settings.{
  Settings, rate_key, ping_key, name_key, backup_key, mirror_key, Stage, going, stopped, ◌then_◌,
  set_setting, put_name, put_rate, put_ping, unless_stopped, put_backup, put_mirror,
}

-- If a stage goes on, the settings are such.
abbrev pub After : (Settings → Type 0) → Stage → Type 0
After P (going s) = P s
After P (stopped s c) = Unit {0}

pub then-After :
    (P Q : Settings → Type 0) (st : Stage) (f : Settings → Stage)
    → After P st
    → ((s : Settings) → P s → After Q (f s))
    → After Q (st then_ f)
then-After P Q (going s) f h keep = keep s h
then-After P Q (stopped s c) f h keep = tt

pub After-map :
    (P Q : Settings → Type 0) (st : Stage) → After P st → ((s : Settings) → P s → Q s) → After Q st
After-map P Q (going s) h f = f s h
After-map P Q (stopped s c) h f = tt

if-After :
    (P : Settings → Type 0) (b : Bool) (s : Settings) (st : Stage)
    → (b ≡ false → After P st)
    → After P (if b then stopped s validation else st)
if-After P true s st h = tt
if-After P false s st h = h refl

-- The value at a key is as it was.
abbrev pub Same : Bytes → Settings → Settings → Type 0
Same k s s' = lookup k s'.stored ≡ lookup k s.stored

set_setting_self :
    (fails : Bytes → Bool) (k v : Bytes) (s : Settings)
    → After (λ s'. lookup k s'.stored ≡ some v) (set_setting fails k v s)
unfolding set_setting
set_setting_self fails k v s = elim (Bool-cases (fails k)) [
  | inl h ↦ rw (h, set_setting) tt
  | inr h ↦ rw (h, set_setting) (ground (arith, lookup-insert k k v s.stored, same_bytes_iff k k))
]

set_setting_other :
    (fails : Bytes → Bool) (k j v : Bytes) (s : Settings)
    → same_bytes j k ≡ false
    → After (Same k s) (set_setting fails j v s)
unfolding set_setting
set_setting_other fails k j v s other = elim (Bool-cases (fails j)) [
  | inl f ↦ rw (f, set_setting) tt
  | inr f ↦ rw (f, set_setting) (ground (arith, lookup-insert j k v s.stored))
]

-- what a request makes of a number under a key: a new one is within its bounds
abbrev pub Expected : Bytes → ℤ → ℤ → Option ℤ → Settings → Settings → Type 0
Expected k lo hi none s s' = Same k s s'
Expected k lo hi (some n) s s' = (lookup k s'.stored ≡ some (decimal n)) × (lo ≤ℤ n) × (n ≤ℤ hi)

pub Expected-Same :
    (k : Bytes) (lo hi : ℤ) (o : Option ℤ) (s t u : Settings)
    → Expected k lo hi o s t
    → Same k t u
    → Expected k lo hi o s u
Expected-Same k lo hi none s t u x h = h ∙ x
Expected-Same k lo hi (some n) s t u (x, l, b) h = (h ∙ x, l, b)

pub Expected-from :
    (k : Bytes) (lo hi : ℤ) (o : Option ℤ) (s t u : Settings)
    → Same k s t
    → Expected k lo hi o t u
    → Expected k lo hi o s u
Expected-from k lo hi none s t u h x = x ∙ h
Expected-from k lo hi (some n) s t u h x = x

unless_stopped-Same :
    (fails : Bytes → Bool) (k : Bytes) (s : Settings) (st : Stage)
    → After (Same k s) st
    → After (Same k s) (unless_stopped fails s st)
unless_stopped-Same fails k s (going s') h = h
unless_stopped-Same fails k s (stopped s' c) h = refl

abbrev named : Bytes → Settings → Stage
named name s = going (record s { panel_name = name })

abbrev pushed : Settings → Stage
pushed s = going (record s { pushes = suc s.pushes })

module _ (fails : Bytes → Bool) where
  pub put_name-Same :
      (k : Bytes) (o : Option Bytes) (s : Settings)
      → same_bytes name_key k ≡ false
      → After (Same k s) (put_name fails o s)
  unfolding put_name
  put_name-Same k none s other = refl
  put_name-Same k (some v) s other =
      if-After (Same k s) (same_bytes (trim_space v) [] || ltb 64 (length (trim_space v))) s
        (set_setting fails name_key (trim_space v) s then_ named (trim_space v))
        λ _.
          then-After (Same k s) (Same k s) (set_setting fails name_key (trim_space v) s)
            (named (trim_space v)) (set_setting_other fails k name_key (trim_space v) s other)
            (λ s' h. h)

  pub put_rate-Same :
      (k : Bytes) (o : Option ℤ) (s : Settings)
      → same_bytes rate_key k ≡ false
      → After (Same k s) (put_rate fails o s)
  unfolding put_rate
  put_rate-Same k none s other = refl
  put_rate-Same k (some n) s other =
      if-After (Same k s) (ltb_ℤ n (pos 0) || ltb_ℤ (pos 1000000) n) s
        (set_setting fails rate_key (decimal n) s then_ pushed)
        λ _.
          then-After (Same k s) (Same k s) (set_setting fails rate_key (decimal n) s) pushed
            (set_setting_other fails k rate_key (decimal n) s other) (λ s' h. h)

  pub put_ping-Same :
      (k : Bytes) (o : Option ℤ) (s : Settings)
      → same_bytes ping_key k ≡ false
      → After (Same k s) (put_ping fails o s)
  unfolding put_ping
  put_ping-Same k none s other = refl
  put_ping-Same k (some n) s other =
      if-After (Same k s) (ltb_ℤ n (pos 5) || ltb_ℤ (pos 3600) n) s
        (set_setting fails ping_key (decimal n) s)
        (λ _. set_setting_other fails k ping_key (decimal n) s other)

  pub put_backup-Same :
      (k : Bytes) (o : Option Bool) (s : Settings)
      → same_bytes backup_key k ≡ false
      → After (Same k s) (put_backup fails o s)
  unfolding put_backup
  put_backup-Same k none s other = refl
  put_backup-Same k (some on) s other =
      unless_stopped-Same fails k s
        (set_setting fails backup_key (if on then codes "1" else codes "0") s)
        (set_setting_other fails k backup_key (if on then codes "1" else codes "0") s other)

  pub put_mirror-Same :
      (k : Bytes) (o : Option Bytes) (s : Settings)
      → same_bytes mirror_key k ≡ false
      → After (Same k s) (put_mirror fails o s)
  unfolding put_mirror
  put_mirror-Same k none s other = refl
  put_mirror-Same k (some v) s other =
      if-After (Same k s)
        (not (same_bytes (trim_space v) [])
          && not (has_prefix (codes "https://") (trim_space v))
          && not (has_prefix (codes "http://") (trim_space v)))
        s (set_setting fails mirror_key (trim_space v) s)
        (λ _. set_setting_other fails k mirror_key (trim_space v) s other)

  pub put_rate-Expected :
      (o : Option ℤ) (s : Settings)
      → After (Expected rate_key (pos 0) (pos 1000000) o s) (put_rate fails o s)
  unfolding put_rate
  put_rate-Expected none s = refl
  put_rate-Expected (some n) s =
      if-After (Expected rate_key (pos 0) (pos 1000000) (some n) s)
        (ltb_ℤ n (pos 0) || ltb_ℤ (pos 1000000) n) s
        (set_setting fails rate_key (decimal n) s then_ pushed)
        λ within.
          then-After (λ s'. lookup rate_key s'.stored ≡ some (decimal n))
            (Expected rate_key (pos 0) (pos 1000000) (some n) s)
            (set_setting fails rate_key (decimal n) s) pushed
            (set_setting_self fails rate_key (decimal n) s)
            (λ s' h. (h, ground arith, ground arith))

  pub put_ping-Expected :
      (o : Option ℤ) (s : Settings)
      → After (Expected ping_key (pos 5) (pos 3600) o s) (put_ping fails o s)
  unfolding put_ping
  put_ping-Expected none s = refl
  put_ping-Expected (some n) s =
      if-After (Expected ping_key (pos 5) (pos 3600) (some n) s)
        (ltb_ℤ n (pos 5) || ltb_ℤ (pos 3600) n) s (set_setting fails ping_key (decimal n) s)
        λ within.
          After-map (λ s'. lookup ping_key s'.stored ≡ some (decimal n))
            (Expected ping_key (pos 5) (pos 3600) (some n) s)
            (set_setting fails ping_key (decimal n) s)
            (set_setting_self fails ping_key (decimal n) s)
            (λ s' h. (h, ground arith, ground arith))
