-- ===== src/Panel/Errors.antt =====
-- internal/panel/errs.go and the choice of a status in internal/panel/resp.go. The texts of the errors
-- are left out.
use frp_panel.Prelude.{ℕ, Option, none, some}

pub data Code : Type 0 where
  bad_request validation unauthorized session_stale forbidden not_found port_busy conflict : Code
  reserved_port login_locked node_offline local_no_listen db_down internal : Code

unfoldable pub number : Code → ℕ
number bad_request = 40000
number validation = 40001
number unauthorized = 40101
number session_stale = 40102
number forbidden = 40301
number not_found = 40401
number port_busy = 40901
number conflict = 40902
number reserved_port = 40903
number login_locked = 42901
number node_offline = 50301
number local_no_listen = 50302
number db_down = 50303
number internal = 50000

-- An error that is no `AppError` is an internal one.
unfoldable pub app_error : Option Code → Code
app_error none = internal
app_error (some c) = c

-- the status of `fail`
unfoldable pub status : Code → ℕ
status unauthorized = 401
status session_stale = 401
status db_down = 503
status _ = 200
