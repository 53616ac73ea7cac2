-- ===== src/Panel/Session/Lasting.antt =====
-- A session is good for seven days.
use frp_panel.Prelude.{
  ℕ, ◌+◌, ◌*◌, ◌/◌, ◌≤◌, ◌≡◌, refl, ap, ◌∙◌, Bool, true, false, ◌&&◌, Option, none, some, List, [],
  ◌∷◌, arith, if◌then◌else◌, Option-cases, ltb, inl, inr,
}
use frp_panel.Prelude.Int.{ℤ, eqb_ℤ_iff}
use frp_panel.Prelude.Text.{Bytes}
use frp_panel.Limiter.{second, login_blocked}
use frp_panel.Panel.Session.Table.{User, Users, get_user_by_username, get_user_by_id, create_user}
use frp_panel.Panel.Session.Rows.{get-append}
use frp_panel.Panel.Session.{
  Claims, Crypto, session, accepted, Panel, Database, Login, jwt_ttl, claims_of, issue,
  check_version, check_claims, claims_from_request,
}
use frp_panel.Panel.Session.Handlers.{
  reject_login, check_user, login_body, handle_login, Request, login, change, create, reset, step,
  run,
}
use frp_panel.Panel.Session.Revoked.{handle_login-users, from_issued}

-- The numbers of the rows are a key.
abbrev pub IsKeyed : List User → Type 0
IsKeyed [] = Unit {0}
IsKeyed (u ∷ us) = (get_user_by_id u.id us ≡ none) × IsKeyed us

get_by_id-by_username :
    (same_name : Bytes → Bytes → Bool) (name : Bytes) (us : List User) (u : User)
    → IsKeyed us
    → get_user_by_username same_name name us ≡ some u
    → get_user_by_id u.id us ≡ some u
unfolding get_user_by_username get_user_by_id
get_by_id-by_username same_name name [] u k h = absurd (ground arith)
get_by_id-by_username same_name name (v ∷ us) u (k, ks) h =
    ground (arith, eqb_ℤ_iff v.id u.id, get_by_id-by_username same_name name us u ks)

create_user-keeps :
    (same_name : Bytes → Bytes → Bool) (name hash : Bytes) (us : Users) (id : ℤ) (u : User)
    → get_user_by_id id us.rows ≡ some u
    → get_user_by_id id (create_user same_name name hash us).0.rows ≡ some u
unfolding create_user
create_user-keeps same_name name hash us id u h =
    elim (Option-cases (get_user_by_username same_name name us.rows)) [
      | inl e ↦ rw e (get-append id us.rows _ u h)
      | inr (v, e) ↦ rw e h
    ]

module _ (crypto : Crypto) (same_name : Bytes → Bytes → Bool) (secret : Bytes) where
  -- logins and new users, but no password that is set
  abbrev pub NoneSet : List (Request crypto same_name secret) → Type 0
  NoneSet [] = Unit {0}
  NoneSet (login r ∷ rs) = NoneSet rs
  NoneSet (create name hash ∷ rs) = NoneSet rs
  NoneSet (change r ∷ rs) = ⊥
  NoneSet (reset w id hash ∷ rs) = ⊥

  run-keeps :
      (rs : List (Request crypto same_name secret)) (p : Panel) (id : ℤ) (u : User)
      → NoneSet rs
      → get_user_by_id id p.users.rows ≡ some u
      → get_user_by_id id (run crypto same_name secret rs p).users.rows ≡ some u
  unfolding run step
  run-keeps [] p id u n h = h
  run-keeps (login r ∷ rs) p id u n h = run-keeps rs _ id u n (
      ap (λ (us : Users). get_user_by_id id us.rows)
        (handle_login-users crypto same_name secret r p)
      ∙ h)
  run-keeps (create name hash ∷ rs) p id u n h =
      run-keeps rs _ id u n (create_user-keeps same_name name hash p.users id u h)
  run-keeps (change r ∷ rs) p id u n h = elim n [ ]
  run-keeps (reset w id' hash ∷ rs) p id u n h = elim n [ ]

  -- the user of a login that answers with a session
  check_user-session :
      (r : Login) (pw : Bytes) (found : Option User) (p : Panel) (t s : Bytes)
      → (check_user crypto same_name secret r pw found p).1 ≡ session t s
      → (u : User) × (found ≡ some u) × (t ≡ issue crypto same_name secret r.issued u)
  unfolding check_user reject_login
  check_user-session r pw none p t s h = absurd (ground arith)
  check_user-session r pw (some u) p t s h = (u, refl, ground arith)

  login_body-session :
      (r : Login) (body : Option (Bytes × Bytes)) (p : Panel) (t s : Bytes)
      → (login_body crypto same_name secret r body p).1 ≡ session t s
      → (u : User) × (name : Bytes) × (get_user_by_username same_name name p.users.rows ≡ some u)
        × (t ≡ issue crypto same_name secret r.issued u)
  unfolding login_body
  login_body-session r none p t s h = absurd (ground arith)
  login_body-session r (some (name, pw)) p t s h =
      let (u, e, i) =
        check_user-session r pw (get_user_by_username same_name name p.users.rows) p t s
          (ground arith) in
      (u, name, e, i)

  handle_login-session :
      (r : Login) (p : Panel) (t s : Bytes)
      → (handle_login crypto same_name secret r p).1 ≡ session t s
      → (u : User) × (name : Bytes) × (get_user_by_username same_name name p.users.rows ≡ some u)
        × (t ≡ issue crypto same_name secret r.issued u)
  unfolding handle_login
  handle_login-session r p t s h =
      login_body-session r r.body (record p { limiter = (login_blocked r.ip r.now p.limiter).0 }) t
        s (ground arith)

  holds :
      (in_time : Bool) (c : Claims) (db : Database) (us : Users) (u : User)
      → in_time ≡ true
      → (db.up && db.get_fails) ≡ false
      → get_user_by_id c.uid us.rows ≡ some u
      → u.pwd_version ≡ c.pv
      → check_claims crypto same_name secret db us (if in_time then some c else none) ≡ accepted c
  unfolding check_claims check_version
  holds true c db us u now h there same = ground (arith, eqb_ℤ_iff u.pwd_version c.pv)
  holds false c db us u now h there same = absurd (ground arith)

  in_time :
      (now issued : ℕ)
      → now + second ≤ issued + jwt_ttl
      → ltb now ((issued + jwt_ttl) / second * second) ≡ true
  in_time now issued h = ground arith

  -- A login that answers with a session: requests with it are let through until seven days later, but
  -- for a second, whatever logins and new users come in between, if the database, where it is up,
  -- answers.
  pub session-lasts :
      (p : Panel) (r : Login) (t s : Bytes) (rs : List (Request crypto same_name secret))
      (db : Database) (now : ℕ)
      → IsKeyed p.users.rows
      → (handle_login crypto same_name secret r p).1 ≡ session t s
      → NoneSet rs
      → now + second ≤ r.issued + jwt_ttl
      → (db.up && db.get_fails) ≡ false
      → (c : Claims) × (claims_from_request crypto same_name secret db now
            (some t)
            (run crypto same_name secret rs (handle_login crypto same_name secret r p).0).users
          ≡ accepted c)
  unfolding claims_of
  session-lasts p r t s rs db now keyed won none_set soon answers =
      let (u, name, e, i) = handle_login-session r p t s won in
      (
        claims_of crypto same_name secret r.issued u,
        rw i (
            from_issued crypto same_name secret db r.issued now u _
            ∙ holds _ (claims_of crypto same_name secret r.issued u) db _ u
                (in_time now r.issued soon) answers
                (run-keeps rs _ u.id u none_set (
                  ap (λ (us : Users). get_user_by_id u.id us.rows)
                    (handle_login-users crypto same_name secret r p)
                  ∙ get_by_id-by_username same_name name p.users.rows u keyed e))
                refl),
      )
