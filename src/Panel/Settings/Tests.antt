-- ===== src/Panel/Settings/Tests.antt =====
-- A request that is carried out, and one that is refused when the name is stored.
use frp_panel.Prelude.{◌≡◌, refl, Bool, true, false, none, some, inl, [], ◌∷◌, arith}
use frp_panel.Prelude.Int.{pos}
use frp_panel.Prelude.Text.{Bytes, bytes_eq, codes, same_bytes, trim_left, trim_right, trim_space}
use frp_panel.Prelude.Assoc.{lookup, insert}
use frp_panel.Prelude.Decimal.{decimal}
use frp_panel.Panel.Errors.{validation}
use frp_panel.Panel.Settings.{
  Settings, UpdateSettings, name_key, rate_key, conn_rate_limit, ping_interval_sec, put_name,
  put_rate, put_ping, put_backup, put_mirror, set_setting, update_settings, handle_update_settings,
}
use frp_panel.Panel.Settings.ReadBack.{update_settings-read_back, update_settings-half_done}

abbrev nothing_fails : Bytes → Bool
nothing_fails k = false

abbrev settings : Settings
settings = record { stored = []; panel_name = codes "panel"; pushes = 0 }

-- a limit of 100, and no interval
abbrev limit : UpdateSettings
limit = record {
  panel_name = none;
  conn_rate_limit = some (pos 100);
  tcp_ping_interval = none;
  auto_backup = none;
  update_mirror = none;
}

abbrev limited : Settings
limited = record settings { stored = (rate_key, decimal (pos 100)) ∷ []; pushes = 1 }

update_settings-read_back_example :
    (conn_rate_limit true false limited ≡ pos 100)
    × (ping_interval_sec true false limited ≡ ping_interval_sec true false settings)
unfolding handle_update_settings update_settings put_name put_rate put_ping put_backup put_mirror
    set_setting insert
update_settings-read_back_example =
    update_settings-read_back nothing_fails limit settings limited refl

-- a name, and an interval that is too short
abbrev too_short : UpdateSettings
too_short = record {
  panel_name = some (codes " home ");
  conn_rate_limit = none;
  tcp_ping_interval = some (pos 3);
  auto_backup = none;
  update_mirror = none;
}

update_settings-half_done_example :
    (let (s', reply) = handle_update_settings true nothing_fails (some too_short) settings in
      (reply ≡ some validation)
      × (s'.panel_name ≡ trim_space (codes " home "))
      × (lookup name_key s'.stored ≡ some (trim_space (codes " home "))))
unfolding same_bytes trim_left trim_right
update_settings-half_done_example =
    update_settings-half_done nothing_fails too_short settings (codes " home ") (pos 3) refl refl
      refl refl (ground arith) refl (inl (ground arith))
