-- ===== src/Panel/Settings.antt =====
-- The settings of the panel: GetSetting and SetSetting of internal/panel/store.go, the readers
-- `connRateLimit`, `pingIntervalSec`, `updateSource` and `LoadRuntimeSettings` of internal/panel/app.go, and
-- `handleUpdateSettings` of internal/panel/handlers_misc.go. Which statements fail is an argument. A text
-- is its bytes, and white space that of ASCII; the base of the configuration is not empty or not there.
pub mod Stages
pub mod ReadBack
mod Tests
use frp_panel.Prelude.{
  ℕ, suc, ◌==◌, Bool, true, false, not, ◌&&◌, ◌||◌, Option, none, some, List, [], ◌∷◌,
  if◌then◌else◌, ltb, length,
}
use frp_panel.Prelude.Int.{ℤ, pos, ltb_ℤ}
use frp_panel.Prelude.Text.{Bytes, bytes_eq, codes, same_bytes, has_prefix, trim_space}
use frp_panel.Prelude.Decimal.{Parsed, decimal, parse_int, to_option}
use frp_panel.Prelude.Assoc.{Assoc, lookup, insert}
use frp_panel.Selfupdate.{trim_slashes}
use frp_panel.Panel.Errors.{Code, bad_request, validation, db_down}

-- the table `settings`, the name in memory, and how often `PushRateLimitAll` was called
pub record Settings : Type 0 where
  pub stored : Assoc Bytes Bytes
  pub panel_name : Bytes
  pub pushes : ℕ

abbrev or_empty : Option Bytes → Bytes
or_empty none = []
or_empty (some v) = v

-- none if the statement fails
unfoldable pub get_setting : Bool → Bytes → Settings → Option Bytes
get_setting fails k s = if fails then none else some (or_empty (lookup k s.stored))

abbrev pub rate_key : Bytes
rate_key = codes "conn_rate_limit"

abbrev pub ping_key : Bytes
ping_key = codes "tcp_ping_interval"

abbrev pub name_key : Bytes
name_key = codes "panel_name"

abbrev pub backup_key : Bytes
backup_key = codes "auto_backup"

abbrev pub mirror_key : Bytes
mirror_key = codes "update_mirror"

-- strconv.Atoi, for an int of 64 bits
abbrev atoi : Bytes → Option ℤ
atoi v = to_option (parse_int 10 64 v)

abbrev from_zero : Option ℤ → ℤ
from_zero none = pos 200
from_zero (some n) = if ltb_ℤ n (pos 0) then pos 200 else n

abbrev rate_of : Option Bytes → ℤ
rate_of none = pos 200
rate_of (some v) = if same_bytes v [] then pos 200 else from_zero (atoi v)

-- `connRateLimit`
unfoldable pub conn_rate_limit : Bool → Bool → Settings → ℤ
conn_rate_limit db_up fails s =
    if not db_up then pos 200 else rate_of (get_setting fails rate_key s)

abbrev from_five : Option ℤ → ℤ
from_five none = pos 15
from_five (some n) = if ltb_ℤ n (pos 5) then pos 15 else n

-- `pingIntervalSec`; a statement that fails gives an empty text
unfoldable pub ping_interval_sec : Bool → Bool → Settings → ℤ
ping_interval_sec db_up fails s =
    if not db_up then pos 15 else from_five (atoi (or_empty (get_setting fails ping_key s)))

-- `updateSource`, given the base of the configuration
unfoldable pub update_source : Bytes → Bool → Bool → Settings → Bytes × Bytes
update_source configured db_up fails s =
    let stored_base = or_empty (get_setting fails (codes "update_base_url") s) in
    let base = if db_up && same_bytes configured [] then stored_base else configured in
    let mirror = if db_up then or_empty (get_setting fails mirror_key s) else [] in
    (trim_slashes (trim_space base), trim_space mirror)

unfoldable pub load_runtime_settings : Bool → Settings → Settings
load_runtime_settings fails s =
    let v = or_empty (get_setting fails name_key s) in
    if same_bytes v [] then s else record s { panel_name = v }

-- How far a request has come: on, or to an error; what it has done stays done.
pub data Stage : Type 0 where
  going : Settings → Stage
  stopped : Settings → Code → Stage

infixl 5 ◌then_◌
abbrev pub ◌then_◌ : Stage → (Settings → Stage) → Stage
going s then_ f = f s
stopped s c then_ f = stopped s c

-- `SetSetting`, for the keys at which it fails
unfoldable pub set_setting : (Bytes → Bool) → Bytes → Bytes → Settings → Stage
set_setting fails k v s =
    if fails k then stopped s db_down else going (record s { stored = insert k v s.stored })

pub record UpdateSettings : Type 0 where
  pub panel_name : Option Bytes
  pub conn_rate_limit : Option ℤ
  pub tcp_ping_interval : Option ℤ
  pub auto_backup : Option Bool
  pub update_mirror : Option Bytes

module _ (fails : Bytes → Bool) where
  unfoldable pub put_name : Option Bytes → Settings → Stage
  put_name none s = going s
  put_name (some v) s =
      let name = trim_space v in
      if same_bytes name [] || ltb 64 (length name)
      then stopped s validation
      else set_setting fails name_key name s then_ (λ s'. going (record s' { panel_name = name }))

  unfoldable pub put_rate : Option ℤ → Settings → Stage
  put_rate none s = going s
  put_rate (some n) s =
      if ltb_ℤ n (pos 0) || ltb_ℤ (pos 1000000) n
      then stopped s validation
      else set_setting fails rate_key (decimal n) s
        then_ (λ s'. going (record s' { pushes = suc s'.pushes }))

  unfoldable pub put_ping : Option ℤ → Settings → Stage
  put_ping none s = going s
  put_ping (some n) s =
      if ltb_ℤ n (pos 5) || ltb_ℤ (pos 3600) n
      then stopped s validation
      else set_setting fails ping_key (decimal n) s

  abbrev unless_stopped : Settings → Stage → Stage
  unless_stopped s (going s') = going s'
  unless_stopped s (stopped s' c) = going s

  -- The error of this statement is passed over.
  unfoldable pub put_backup : Option Bool → Settings → Stage
  put_backup none s = going s
  put_backup (some on) s =
      unless_stopped s (set_setting fails backup_key (if on then codes "1" else codes "0") s)

  unfoldable pub put_mirror : Option Bytes → Settings → Stage
  put_mirror none s = going s
  put_mirror (some v) s =
      let m = trim_space v in
      if not (same_bytes m [])
        && not (has_prefix (codes "https://") m)
        && not (has_prefix (codes "http://") m)
      then stopped s validation
      else set_setting fails mirror_key m s

  unfoldable pub update_settings : UpdateSettings → Settings → Stage
  update_settings req s =
      put_name req.panel_name s
      then_ put_rate req.conn_rate_limit
      then_ put_ping req.tcp_ping_interval
      then_ put_backup req.auto_backup
      then_ put_mirror req.update_mirror

abbrev answered : Stage → Settings × Option Code
answered (going s) = (s, none)
answered (stopped s c) = (s, some c)

-- the settings afterwards, and the error if there is one
unfoldable pub handle_update_settings :
    Bool → (Bytes → Bool) → Option UpdateSettings → Settings → Settings × Option Code
handle_update_settings db_up fails none s = (s, some (if db_up then bad_request else db_down))
handle_update_settings db_up fails (some req) s =
    if not db_up then (s, some db_down) else answered (update_settings fails req s)
