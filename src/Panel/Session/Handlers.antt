-- ===== src/Panel/Session/Handlers.antt =====
-- The handlers of internal/panel/handlers_auth.go, the route that changes the password, and the runs of
-- requests.
use frp_panel.Prelude.{
  Bool, false, not, Option, none, some, List, [], ◌∷◌, if◌then◌else◌, ltb, length,
}
use frp_panel.Prelude.Int.{ℤ}
use frp_panel.Prelude.Text.{Bytes, codes}
use frp_panel.Limiter.{login_blocked, login_fail, login_success}
use frp_panel.Panel.Errors.{bad_request, validation, unauthorized, login_locked, db_down, internal}
use frp_panel.Panel.Session.Table.{
  User, Users, Written, get_user_by_username, get_user_by_id, create_user, update_password,
}
use frp_panel.Panel.Session.{
  Claims, Crypto, Reply, Panel, Login, ChangePassword, csrf_guard, issue, claims_from_request,
  require_auth, fail, done, session, cleared,
}

module _ (crypto : Crypto) (same_name : Bytes → Bytes → Bool) (secret : Bytes) where
  unfoldable pub reject_login : Login → Panel → Panel × Reply
  reject_login r p = (record p { limiter = login_fail r.ip r.later p.limiter }, fail unauthorized)

  unfoldable pub check_user : Login → Bytes → Option User → Panel → Panel × Reply
  check_user r pw none p = reject_login r p
  check_user r pw (some u) p =
      if not (crypto.compare u.password_hash pw) then reject_login r p else (
        record p { limiter = login_success r.ip p.limiter },
        session (issue crypto same_name secret r.issued u) r.csrf,
      )

  unfoldable pub login_body : Login → Option (Bytes × Bytes) → Panel → Panel × Reply
  login_body r none p = (p, fail bad_request)
  login_body r (some (name, pw)) p =
      if r.db.get_fails
      then (p, fail db_down)
      else check_user r pw (get_user_by_username same_name name p.users.rows) p

  unfoldable pub handle_login : Login → Panel → Panel × Reply
  handle_login r p =
      let (l, is_locked) = login_blocked r.ip r.now p.limiter in
      let p' = record p { limiter = l } in
      if is_locked
      then (p', fail login_locked)
      else if not r.db.up
      then (p', fail db_down)
      else login_body r r.body p'

  unfoldable pub handle_logout : Claims → Panel → Panel × Reply
  handle_logout c p = (p, cleared)

  -- `u.PwdVersion = newPV`, and the new session
  unfoldable pub reissue : ChangePassword → User → Users × Option ℤ → Panel → Panel × Reply
  reissue r u (us, none) p = (record p { users = us }, fail db_down)
  reissue r u (us, some v) p = (
    record p { users = us },
    session (issue crypto same_name secret r.issued (record u { pwd_version = v })) r.csrf,
  )

  unfoldable pub write_password :
      ChangePassword → Claims → User → Option Bytes → Panel → Panel × Reply
  write_password r c u none p = (p, fail internal)
  write_password r c u (some hash) p =
      reissue r u (update_password r.written r.select_fails c.uid hash p.users) p

  unfoldable pub check_old :
      ChangePassword → Claims → Bytes → Bytes → Option User → Panel → Panel × Reply
  check_old r c old new none p = (p, fail validation)
  check_old r c old new (some u) p =
      if not (crypto.compare u.password_hash old)
      then (p, fail validation)
      else write_password r c u (crypto.generate r.salt new) p

  unfoldable pub change_body :
      ChangePassword → Claims → Option (Bytes × Bytes) → Panel → Panel × Reply
  change_body r c none p = (p, fail bad_request)
  change_body r c (some (old, new)) p =
      if ltb (length new) 8
      then (p, fail validation)
      else if r.db.get_fails
      then (p, fail db_down)
      else check_old r c old new (get_user_by_id c.uid p.users.rows) p

  unfoldable pub handle_change_password : ChangePassword → Claims → Panel → Panel × Reply
  handle_change_password r c p = if not r.db.up then (p, fail db_down) else change_body r c r.body p

  -- POST /settings/password
  unfoldable pub change_route : ChangePassword → Panel → Panel × Reply
  change_route r p =
      require_auth crypto same_name secret
        (claims_from_request crypto same_name secret r.auth_db r.now r.cookie p.users)
        (csrf_guard (codes "POST") r.csrf_cookie r.csrf_header) p
        (λ c. handle_change_password r c p)

  -- What comes to the table: requests, and the commands that create the administrator and reset the
  -- password.
  pub data Request : Type 0 where
    login : Login → Request
    change : ChangePassword → Request
    create : Bytes → Bytes → Request
    reset : Written → ℤ → Bytes → Request

  unfoldable pub step : Request → Panel → Panel × Reply
  step (login r) p = handle_login r p
  step (change r) p = change_route r p
  step (create name hash) p =
      (record p { users = (create_user same_name name hash p.users).0 }, done)
  step (reset w id hash) p =
      (record p { users = (update_password w false id hash p.users).0 }, done)

  unfoldable pub run : List Request → Panel → Panel
  run [] p = p
  run (r ∷ rs) p = run rs (step r p).0
