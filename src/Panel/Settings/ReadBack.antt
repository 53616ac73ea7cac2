-- ===== src/Panel/Settings/ReadBack.antt =====
-- Settings that were written, and what is read of them.
use frp_panel.Prelude.{
  ◌≤◌, ◌≡◌, refl, sym, ap, subst, ◌∙◌, Bool, true, false, Option, none, some, [], arith, Bool-cases,
  inl, inr, ◌⊎◌, length,
}
use frp_panel.Prelude.Int.{ℤ, pos, ◌<ℤ◌, IsInt64}
use frp_panel.Prelude.Text.{Bytes, bytes_eq, same_bytes, same_bytes_iff, trim_space}
use frp_panel.Prelude.Decimal.{decimal, exact, bad_syntax, parse_int}
use frp_panel.Prelude.Decimal.ReadBack.{parse_int-decimal}
use frp_panel.Prelude.Assoc.{lookup, lookup-insert}
use frp_panel.Panel.Errors.{validation}
use frp_panel.Panel.Settings.{
  Settings, get_setting, rate_key, ping_key, name_key, conn_rate_limit, ping_interval_sec, Stage,
  going, stopped, ◌then_◌, set_setting, UpdateSettings, put_name, put_rate, put_ping, put_backup,
  put_mirror, update_settings, answered, handle_update_settings,
}
use frp_panel.Panel.Settings.Stages.{
  After, then-After, After-map, Same, Expected, Expected-Same, Expected-from, put_name-Same,
  put_rate-Same, put_ping-Same, put_backup-Same, put_mirror-Same, put_rate-Expected,
  put_ping-Expected,
}

-- A stage that leaves the key alone, before or behind the one that writes it.
before :
    (k : Bytes) (lo hi : ℤ) (o : Option ℤ) (s : Settings) (st : Stage) (f : Settings → Stage)
    → After (Same k s) st
    → ((t : Settings) → After (Expected k lo hi o t) (f t))
    → After (Expected k lo hi o s) (st then_ f)
before k lo hi o s st f h g = then-After (Same k s) (Expected k lo hi o s) st f h λ t e.
    After-map (Expected k lo hi o t) (Expected k lo hi o s) (f t) (g t)
      (λ u x. Expected-from k lo hi o s t u e x)

behind :
    (k : Bytes) (lo hi : ℤ) (o : Option ℤ) (s : Settings) (st : Stage) (f : Settings → Stage)
    → After (Expected k lo hi o s) st
    → ((t : Settings) → After (Same k t) (f t))
    → After (Expected k lo hi o s) (st then_ f)
behind k lo hi o s st f h g = then-After (Expected k lo hi o s) (Expected k lo hi o s) st f h λ t x.
    After-map (Same k t) (Expected k lo hi o s) (f t) (g t)
      (λ u e. Expected-Same k lo hi o s t u x e)

both-Same :
    (k : Bytes) (s : Settings) (st : Stage) (f : Settings → Stage)
    → After (Same k s) st
    → ((t : Settings) → After (Same k t) (f t))
    → After (Same k s) (st then_ f)
both-Same k s st f h g =
    then-After (Same k s) (Same k s) st f h
      λ t e. After-map (Same k t) (Same k s) (f t) (g t) (λ u x. x ∙ e)

decimal-ne-nil : (n : ℤ) → IsInt64 n → same_bytes (decimal n) [] ≡ false
unfolding parse_int
decimal-ne-nil n h = elim (Bool-cases (same_bytes (decimal n) [])) [
  | inl e ↦ absurd (
      not_exact n
        (sym (ap (parse_int 10 64) ((same_bytes_iff (decimal n) []).0 e)) ∙ parse_int-decimal n h))
  | inr e ↦ e
]
  where
    not_exact : (n : ℤ) → bad_syntax ≡ exact n → ⊥
    not_exact n e = ground arith

-- what a request sets, or what was
abbrev pub or_old : Option ℤ → ℤ → ℤ
or_old none old = old
or_old (some n) old = n

rate_of-Expected :
    (o : Option ℤ) (s t : Settings)
    → Expected rate_key (pos 0) (pos 1000000) o s t
    → conn_rate_limit true false t ≡ or_old o (conn_rate_limit true false s)
unfolding conn_rate_limit get_setting
rate_of-Expected none s t e = rw e refl
rate_of-Expected (some n) s t (e, l, h) =
    rw (e, decimal-ne-nil n (ground arith), parse_int-decimal n (ground arith)) (ground arith)

ping_of-Expected :
    (o : Option ℤ) (s t : Settings)
    → Expected ping_key (pos 5) (pos 3600) o s t
    → ping_interval_sec true false t ≡ or_old o (ping_interval_sec true false s)
unfolding ping_interval_sec get_setting
ping_of-Expected none s t e = rw e refl
ping_of-Expected (some n) s t (e, l, h) = rw (e, parse_int-decimal n (ground arith)) (ground arith)

going_of : (st : Stage) (s : Settings) → answered st ≡ (s, none) → st ≡ going s
going_of (going t) s h = ap going (ap (λ q. q.0) h)
going_of (stopped t c) s h = absurd (ground arith)

module _ (fails : Bytes → Bool) (req : UpdateSettings) (s : Settings) where
  rate-Expected :
      After
        (Expected rate_key (pos 0) (pos 1000000) req.conn_rate_limit s)
        (update_settings fails req s)
  unfolding update_settings same_bytes
  rate-Expected =
      behind rate_key (pos 0) (pos 1000000) req.conn_rate_limit s _
        (put_mirror fails req.update_mirror)
        (behind rate_key (pos 0) (pos 1000000) req.conn_rate_limit s _
          (put_backup fails req.auto_backup)
          (behind rate_key (pos 0) (pos 1000000) req.conn_rate_limit s _
            (put_ping fails req.tcp_ping_interval)
            (before rate_key (pos 0) (pos 1000000) req.conn_rate_limit s
              (put_name fails req.panel_name s) (put_rate fails req.conn_rate_limit)
              (put_name-Same fails rate_key req.panel_name s refl)
              (put_rate-Expected fails req.conn_rate_limit))
            (λ t. put_ping-Same fails rate_key req.tcp_ping_interval t refl))
          (λ t. put_backup-Same fails rate_key req.auto_backup t refl))
        (λ t. put_mirror-Same fails rate_key req.update_mirror t refl)

  ping-Expected :
      After
        (Expected ping_key (pos 5) (pos 3600) req.tcp_ping_interval s)
        (update_settings fails req s)
  unfolding update_settings same_bytes
  ping-Expected =
      behind ping_key (pos 5) (pos 3600) req.tcp_ping_interval s _
        (put_mirror fails req.update_mirror)
        (behind ping_key (pos 5) (pos 3600) req.tcp_ping_interval s _
          (put_backup fails req.auto_backup)
          (before ping_key (pos 5) (pos 3600) req.tcp_ping_interval s
            (put_name fails req.panel_name s then_ put_rate fails req.conn_rate_limit)
            (put_ping fails req.tcp_ping_interval)
            (both-Same ping_key s (put_name fails req.panel_name s)
              (put_rate fails req.conn_rate_limit)
              (put_name-Same fails ping_key req.panel_name s refl)
              (λ t. put_rate-Same fails ping_key req.conn_rate_limit t refl))
            (put_ping-Expected fails req.tcp_ping_interval))
          (λ t. put_backup-Same fails ping_key req.auto_backup t refl))
        (λ t. put_mirror-Same fails ping_key req.update_mirror t refl)

  -- A request to change settings that is answered without an error: the limit on connections and the
  -- interval of the pings that are read afterwards are those of the request, or what they were where
  -- it has none; the database is up and answers.
  pub update_settings-read_back :
      (s' : Settings)
      → handle_update_settings true fails (some req) s ≡ (s', none)
      → (conn_rate_limit true false s' ≡ or_old req.conn_rate_limit (conn_rate_limit true false s))
        × (ping_interval_sec true false s'
            ≡ or_old req.tcp_ping_interval (ping_interval_sec true false s))
  unfolding handle_update_settings
  update_settings-read_back s' h =
      let e = going_of (update_settings fails req s) s' h in
      (
        rate_of-Expected req.conn_rate_limit s s' (
            subst (After (Expected rate_key (pos 0) (pos 1000000) req.conn_rate_limit s)) e
              rate-Expected),
        ping_of-Expected req.tcp_ping_interval s s' (
            subst (After (Expected ping_key (pos 5) (pos 3600) req.tcp_ping_interval s)) e
              ping-Expected),
      )

-- A request may be refused when half of it is done: if the name is valid and can be stored, the
-- interval is below 5 or above 3600 and the request has no limit, then, with the database up, the
-- answer is the error of a wrong value, and the panel has the new name, stored as well.
pub update_settings-half_done :
    (fails : Bytes → Bool) (req : UpdateSettings) (s : Settings) (name : Bytes) (n : ℤ)
    → req.panel_name ≡ some name
    → req.conn_rate_limit ≡ none
    → req.tcp_ping_interval ≡ some n
    → same_bytes (trim_space name) [] ≡ false
    → length (trim_space name) ≤ 64
    → fails name_key ≡ false
    → (n <ℤ pos 5) ⊎ (pos 3600 <ℤ n)
    → let (s', reply) = handle_update_settings true fails (some req) s in
      (reply ≡ some validation)
      × (s'.panel_name ≡ trim_space name)
      × (lookup name_key s'.stored ≡ some (trim_space name))
unfolding handle_update_settings update_settings put_name put_rate put_ping set_setting
update_settings-half_done fails req s name n a b c some_name short stores low = ground (
  arith,
  lookup-insert name_key name_key (trim_space name) s.stored,
  same_bytes_iff name_key name_key,
)
