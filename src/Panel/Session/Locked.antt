-- ===== src/Panel/Session/Locked.antt =====
-- Who may not log in.
use frp_panel.Prelude.{Bool, List, [], ◌∷◌, ◌++◌}
use frp_panel.Prelude.Text.{Bytes}
use frp_panel.Limiter.Bans.{Call, failed, succeeded, checked}
use frp_panel.Panel.Errors.{unauthorized}
use frp_panel.Panel.Session.{Crypto, Reply, fail, session, Panel, Login}
use frp_panel.Panel.Session.Handlers.{handle_login}

-- the calls of the limiter that a login comes to
unfoldable pub calls_of : Login → Reply → List Call
calls_of r (fail unauthorized) = checked r.ip r.now ∷ failed r.ip r.later ∷ []
calls_of r (session t s) = checked r.ip r.now ∷ succeeded r.ip ∷ []
calls_of r _ = checked r.ip r.now ∷ []

module _ (crypto : Crypto) (same_name : Bytes → Bytes → Bool) (secret : Bytes) where
  -- the panel after some logins, one after the other
  unfoldable pub logins : List Login → Panel → Panel
  logins [] p = p
  logins (r ∷ rs) p = logins rs (handle_login crypto same_name secret r p).0

  -- the calls that the logins come to
  unfoldable pub calls_run : List Login → Panel → List Call
  calls_run [] p = []
  calls_run (r ∷ rs) p =
      let (p', reply) = handle_login crypto same_name secret r p in
      calls_of r reply ++ calls_run rs p'
