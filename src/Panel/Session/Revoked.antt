-- ===== src/Panel/Session/Revoked.antt =====
-- How long a session is good for: until its user's password is changed, or it expires.
use frp_panel.Prelude.{
  ℕ, ◌+◌, ◌*◌, ◌/◌, ◌≡◌, ◌≢◌, refl, sym, ap, subst, ◌∙◌, Bool, true, false, not, Option, none, some,
  List, [], ◌∷◌, arith, if◌then◌else◌, ltb, length,
}
use frp_panel.Prelude.Int.{ℤ, pos, ◌+ℤ◌, eqb_ℤ_iff, +ℤ_parts}
use frp_panel.Prelude.Text.{Bytes, codes}
use frp_panel.Limiter.{second, login_blocked}
use frp_panel.Panel.Errors.{Code, unauthorized, session_stale}
use frp_panel.Panel.Session.Table.{
  User, Users, Written, applied, rejected, lost, get_user_by_id, set_password, update_password,
}
use frp_panel.Panel.Session.Rows.{
  reset_row, get-set_self, NewerThan, Wrote, kept, set, NewerThan-Wrote, update_password-Wrote,
  create_user-Wrote,
}
use frp_panel.Panel.Session.{
  Claims, Crypto, Reply, fail, session, Checked, refused, accepted, Panel, Database, Login,
  ChangePassword, jwt_ttl, is_empty, csrf_guard, key_of, claims_of, issue, parse, check_version,
  check_claims, claims_from_request, require_auth,
}
use frp_panel.Panel.Session.Handlers.{
  reject_login, check_user, login_body, handle_login, reissue, write_password, check_old,
  change_body, handle_change_password, change_route, Request, login, change, create, reset, step,
  run,
}

not_empty : (bs : Bytes) → bs ≢ [] → is_empty bs ≡ false
not_empty [] h = absurd (h refl)
not_empty (b ∷ bs) h = refl

module _ (crypto : Crypto) (same_name : Bytes → Bytes → Bool) (secret : Bytes) where
  -- what a change of a password leaves, and that it answers with a session only if it was written
  data Handled (c : Claims) (p : Panel) (q : Panel × Reply) : Type 0 where
    untouched : q.0.users.rows ≡ p.users.rows → ((t s : Bytes) → q.1 ≢ session t s) → Handled c p q
    written : (hash : Bytes) → q.0.users.rows ≡ set_password c.uid hash p.users.rows → Handled c p q

  failed : (c : Claims) (p : Panel) (e : Code) → Handled c p (p, fail e)
  failed c p e = untouched refl (λ t s h. ground arith)

  reissue-users :
      (r : ChangePassword) (u : User) (q : Users × Option ℤ) (p : Panel)
      → (reissue crypto same_name secret r u q p).0.users ≡ q.0
  unfolding reissue
  reissue-users r u (us, none) p = refl
  reissue-users r u (us, some v) p = refl

  reissue-Handled :
      (r : ChangePassword) (w : Written) (c : Claims) (u : User) (hash : Bytes) (p : Panel)
      → Handled c p (
          reissue crypto same_name secret r u
            (update_password w r.select_fails c.uid hash p.users)
            p)
  unfolding update_password reissue
  reissue-Handled r rejected c u hash p = untouched refl (λ t s h. ground arith)
  reissue-Handled r lost c u hash p = written hash refl
  reissue-Handled r applied c u hash p = written hash (
      ap (λ (us : Users). us.rows)
        (reissue-users r u (update_password applied r.select_fails c.uid hash p.users) p))

  write_password-Handled :
      (r : ChangePassword) (c : Claims) (u : User) (hash : Option Bytes) (p : Panel)
      → Handled c p (write_password crypto same_name secret r c u hash p)
  unfolding write_password
  write_password-Handled r c u none p = failed c p _
  write_password-Handled r c u (some hash) p = reissue-Handled r r.written c u hash p

  Handled-if :
      (c : Claims) (p : Panel) (b : Bool) {q q' : Panel × Reply}
      → Handled c p q
      → Handled c p q'
      → Handled c p (if b then q else q')
  Handled-if c p true h h' = h
  Handled-if c p false h h' = h'

  check_old-Handled :
      (r : ChangePassword) (c : Claims) (old new : Bytes) (u : Option User) (p : Panel)
      → Handled c p (check_old crypto same_name secret r c old new u p)
  unfolding check_old
  check_old-Handled r c old new none p = failed c p _
  check_old-Handled r c old new (some u) p =
      Handled-if c p (not (crypto.compare u.password_hash old)) (failed c p _)
        (write_password-Handled r c u (crypto.generate r.salt new) p)

  change_body-Handled :
      (r : ChangePassword) (c : Claims) (body : Option (Bytes × Bytes)) (p : Panel)
      → Handled c p (change_body crypto same_name secret r c body p)
  unfolding change_body
  change_body-Handled r c none p = failed c p _
  change_body-Handled r c (some (old, new)) p = Handled-if c p (ltb (length new) 8) (failed c p _) (
      Handled-if c p r.db.get_fails (failed c p _)
        (check_old-Handled r c old new (get_user_by_id c.uid p.users.rows) p))

  handle_change_password-Handled :
      (r : ChangePassword) (c : Claims) (p : Panel)
      → Handled c p (handle_change_password crypto same_name secret r c p)
  unfolding handle_change_password
  handle_change_password-Handled r c p =
      Handled-if c p (not r.db.up) (failed c p _) (change_body-Handled r c r.body p)

  Handled-Wrote :
      (c : Claims) (p : Panel) (q : Panel × Reply)
      → Handled c p q
      → Wrote p.users.rows q.0.users.rows
  Handled-Wrote c p q (untouched e n) = kept e
  Handled-Wrote c p q (written hash e) = set c.uid hash e

  require_auth-Wrote :
      (r : ChangePassword) (o : Checked) (guarded : Bool) (p : Panel)
      → Wrote p.users.rows
          (require_auth crypto same_name secret o guarded p
            (λ c. handle_change_password crypto same_name secret r c p)).0.users.rows
  unfolding require_auth
  require_auth-Wrote r (refused e) guarded p = kept refl
  require_auth-Wrote r (accepted c) true p =
      Handled-Wrote c p _ (handle_change_password-Handled r c p)
  require_auth-Wrote r (accepted c) false p = kept refl

  pub handle_login-users :
      (r : Login) (p : Panel) → (handle_login crypto same_name secret r p).0.users ≡ p.users
  unfolding handle_login login_body check_user reject_login login_blocked
  handle_login-users r p = ground arith

  step-Wrote :
      (r : Request crypto same_name secret) (p : Panel)
      → Wrote p.users.rows (step crypto same_name secret r p).0.users.rows
  unfolding step change_route
  step-Wrote (login r) p = kept (ap (λ (us : Users). us.rows) (handle_login-users r p))
  step-Wrote (change r) p = require_auth-Wrote r _ _ p
  step-Wrote (create name hash) p = create_user-Wrote same_name name hash p.users
  step-Wrote (reset w id hash) p = update_password-Wrote w false id hash p.users

  NewerThan-run :
      (id v : ℤ) (rs : List (Request crypto same_name secret)) (p : Panel)
      → NewerThan id v p.users.rows
      → NewerThan id v (run crypto same_name secret rs p).users.rows
  unfolding run
  NewerThan-run id v [] p n = n
  NewerThan-run id v (r ∷ rs) p n =
      NewerThan-run id v rs (step crypto same_name secret r p).0
        (NewerThan-Wrote id v _ _ (step-Wrote r p) n)

  NewerThan-changed :
      (id v : ℤ) (c : Claims) (p : Panel) (q : Panel × Reply) (t s : Bytes)
      → Handled c p q
      → c.uid ≡ id
      → q.1 ≡ session t s
      → NewerThan id v p.users.rows
      → NewerThan id (v +ℤ pos 1) q.0.users.rows
  NewerThan-changed id v c p q t s (untouched e n) same won newer = absurd (n t s won)
  NewerThan-changed id v c p q t s (written hash e) same won (u, h, n) =
      rw (e, same)
        (
          reset_row hash u,
          get-set_self id hash p.users.rows u h,
          omega (arith, +ℤ_parts u.pwd_version (pos 1), +ℤ_parts v (pos 1)),
        )

  change_route-session :
      (r : ChangePassword) (o : Checked) (guarded : Bool) (p : Panel) (c : Claims) (t s : Bytes)
      → o ≡ accepted c
      → (require_auth crypto same_name secret o guarded p
          (λ c. handle_change_password crypto same_name secret r c p)).1
        ≡ session t s
      → require_auth crypto same_name secret o guarded p
          (λ c. handle_change_password crypto same_name secret r c p)
        ≡ handle_change_password crypto same_name secret r c p
  unfolding require_auth
  change_route-session r (refused e) guarded p c t s h won = absurd (ground arith)
  change_route-session r (accepted d) true p c t s h won =
      ap (λ c. handle_change_password crypto same_name secret r c p) (ground arith)
  change_route-session r (accepted d) false p c t s h won = absurd (ground arith)

  stale_version :
      (c : Claims) (us : List User)
      → NewerThan c.uid (c.pv +ℤ pos 1) us
      → check_version crypto same_name secret c (get_user_by_id c.uid us) ≡ refused session_stale
  unfolding check_version
  stale_version c us (u, h, n) =
      rw h (ground (arith, eqb_ℤ_iff u.pwd_version c.pv, +ℤ_parts c.pv (pos 1)))

  -- what a request is answered whose cookie is a token that was issued for a user
  pub from_issued :
      (db : Database) (issued now : ℕ) (u : User) (us : Users)
      → claims_from_request crypto same_name secret db now
          (some (issue crypto same_name secret issued u))
          us
        ≡ check_claims crypto same_name secret db us (
            if ltb now ((issued + jwt_ttl) / second * second)
            then some (claims_of crypto same_name secret issued u)
            else none)
  unfolding claims_from_request issue parse claims_of key_of
  from_issued db issued now u us =
      rw
        (
          not_empty (issue crypto same_name secret issued u)
              (crypto.signed_some secret (claims_of crypto same_name secret issued u)),
          crypto.parse_signed (key_of secret) secret now
              (claims_of crypto same_name secret issued u) refl,
        )
        refl

  old_token :
      (in_time : Bool) (c : Claims) (db : Database) (us : Users)
      → db.up ≡ true
      → db.get_fails ≡ false
      → NewerThan c.uid (c.pv +ℤ pos 1) us.rows
      → check_claims crypto same_name secret db us (if in_time then some c else none)
        ≡ refused (if in_time then session_stale else unauthorized)
  unfolding check_claims
  old_token true c db us up reads n = ground (arith, stale_version c us.rows n)
  old_token false c db us up reads n = refl

  -- Once the password of a user has been changed, a session from before is refused in every request
  -- that finds the database up, whatever comes in between: as stale, or as unauthorized when it has
  -- expired.
  pub change_password-revokes :
      (p : Panel) (u : User) (issued : ℕ) (before after : List (Request crypto same_name secret))
      (r : ChangePassword) (c : Claims) (t s : Bytes) (db : Database) (now : ℕ)
      → get_user_by_id u.id p.users.rows ≡ some u
      → let q = run crypto same_name secret before p in
        claims_from_request crypto same_name secret r.auth_db r.now r.cookie q.users ≡ accepted c
        → c.uid ≡ u.id
        → (step crypto same_name secret (change r) q).1 ≡ session t s
        → db.up ≡ true
        → db.get_fails ≡ false
        → claims_from_request crypto same_name secret db now
            (some (issue crypto same_name secret issued u))
            (run crypto same_name secret after (step crypto same_name secret (change r) q).0).users
          ≡ refused (
              if ltb now ((issued + jwt_ttl) / second * second)
              then session_stale
              else unauthorized)
  unfolding step change_route claims_of
  change_password-revokes p u issued before after r c t s db now there mine same won up reads =
      from_issued db issued now u _
      ∙ old_token (ltb now ((issued + jwt_ttl) / second * second))
          (claims_of crypto same_name secret issued u) db _ up reads
          (NewerThan-run u.id (u.pwd_version +ℤ pos 1) after _ (
            NewerThan-changed u.id u.pwd_version c q (step crypto same_name secret (change r) q) t s
              (subst (Handled c q)
                (sym (
                  change_route-session r _ (csrf_guard (codes "POST") r.csrf_cookie r.csrf_header) q
                    c t s mine won))
                (handle_change_password-Handled r c q))
              same won (NewerThan-run u.id u.pwd_version before p (u, there, omega arith))))
    where
      q : Panel
      q = run crypto same_name secret before p
