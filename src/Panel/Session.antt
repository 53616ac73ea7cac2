-- ===== src/Panel/Session.antt =====
-- The sessions of the panel: internal/panel/auth.go, with the handlers of internal/panel/handlers_auth.go in
-- Handlers and the table `users` in Table. JWT and bcrypt are an interface, and the answers of
-- the database are arguments. A text is its bytes. An instant is in nanoseconds since 1970; the dates
-- of a JWT are in seconds. The logs are left out.
pub mod Table
pub mod Rows
pub mod Revoked
pub mod Lasting
pub mod Locked
pub mod Handlers
mod Tests
use Prim.Native.String.{String}
use frp_panel.Prelude.{
  ℕ, ◌+◌, ◌*◌, ◌/◌, ◌≤◌, ◌<◌, ◌≡◌, ◌≢◌, Bool, true, false, not, ◌&&◌, ◌||◌, Option, none, some,
  List, [], ◌∷◌, if◌then◌else◌, ltb, length,
}
use frp_panel.Prelude.Int.{ℤ, eqb_ℤ}
use frp_panel.Prelude.Text.{Bytes, codes, same_bytes}
use frp_panel.Limiter.{Limiter, second, login_blocked, login_fail, login_success}
use frp_panel.Panel.Errors.{
  Code, bad_request, validation, unauthorized, session_stale, forbidden, login_locked, db_down,
  internal,
}
use frp_panel.Panel.Session.Table.{
  User, Users, Written, get_user_by_username, get_user_by_id, create_user, update_password,
}

abbrev pub jwt_ttl : ℕ
jwt_ttl = 7 * 24 * 3600 * second

pub record Claims : Type 0 where
  pub uid : ℤ
  pub uname : Bytes
  pub pv : ℤ
  pub expires_at : ℕ
  pub issued_at : ℕ

pub data Method : Type 0 where
  hmac other : Method

-- bcrypt and JWT: a hash of a password under a salt, its check, a token for claims under a key, and the
-- claims of a token at a time, whose key is given by its method.
pub record Crypto : Type 0 where
  pub generate : Bytes → Bytes → Option Bytes
  pub compare : Bytes → Bytes → Bool
  pub signed : Bytes → Claims → Bytes
  pub parse_claims : (Method → Option Bytes) → ℕ → Bytes → Option Claims
  -- A signed token is not empty, and gives its claims back before it expires, and an error afterwards.
  pub signed_some : (key : Bytes) (c : Claims) → signed key c ≢ []
  pub parse_signed :
      (keys : Method → Option Bytes) (key : Bytes) (now : ℕ) (c : Claims)
      → keys hmac ≡ some key
      → parse_claims keys now (signed key c)
        ≡ (if ltb now (c.expires_at * second) then some c else none)

-- what a handler answers, and the cookies that it sets
pub data Reply : Type 0 where
  fail : Code → Reply
  done : Reply
  -- the JWT and the CSRF token of `SetSession`
  session : Bytes → Bytes → Reply
  cleared : Reply

pub data Checked : Type 0 where
  refused : Code → Checked
  accepted : Claims → Checked

pub record Panel : Type 0 where
  pub users : Users
  pub limiter : Limiter

-- Is the database taken to be up, and does a SELECT fail?
pub record Database : Type 0 where
  pub up : Bool
  pub get_fails : Bool

-- `body` is none if `decodeJSON` rejects it. `LoginAllowed`, `LoginFail` and `Issue` read the clock at
-- `now`, `later` and `issued`; `csrf` is the random token of `SetSession`.
pub record Login : Type 0 where
  pub ip : String
  pub now : ℕ
  pub later : ℕ
  pub issued : ℕ
  pub csrf : Bytes
  pub db : Database
  pub body : Option (Bytes × Bytes)

-- `salt` is the randomness of bcrypt; `auth_db` answers the check of the session.
pub record ChangePassword : Type 0 where
  pub cookie : Option Bytes
  pub csrf_cookie : Option Bytes
  pub csrf_header : Bytes
  pub now : ℕ
  pub issued : ℕ
  pub csrf : Bytes
  pub salt : Bytes
  pub auth_db : Database
  pub db : Database
  pub written : Written
  pub select_fails : Bool
  -- the old password and the new one
  pub body : Option (Bytes × Bytes)

-- `http.MethodGet`, `http.MethodHead`, `http.MethodOptions`
unfoldable pub is_safe : Bytes → Bool
is_safe method =
    same_bytes method (codes "GET")
    || same_bytes method (codes "HEAD")
    || same_bytes method (codes "OPTIONS")

abbrev is_empty : Bytes → Bool
is_empty [] = true
is_empty (b ∷ bs) = false

-- Does `CSRFGuard` let a request through, given its method, its cookie and its header?
unfoldable pub csrf_guard : Bytes → Option Bytes → Bytes → Bool
csrf_guard method none header = is_safe method
csrf_guard method (some c) header =
    is_safe method || (not (is_empty c) && not (is_empty header) && same_bytes c header)

-- the function that gives `ParseWithClaims` the key
unfoldable pub key_of : Bytes → Method → Option Bytes
key_of secret hmac = some secret
key_of secret other = none

module _ (crypto : Crypto) (same_name : Bytes → Bytes → Bool) (secret : Bytes) where
  unfoldable pub claims_of : ℕ → User → Claims
  claims_of now u = record {
    uid = u.id;
    uname = u.username;
    pv = u.pwd_version;
    expires_at = (now + jwt_ttl) / second;
    issued_at = now / second;
  }

  unfoldable pub issue : ℕ → User → Bytes
  issue now u = crypto.signed secret (claims_of now u)

  unfoldable pub parse : ℕ → Bytes → Option Claims
  parse now token = crypto.parse_claims (key_of secret) now token

  -- `u == nil || u.PwdVersion != claims.PV`
  unfoldable pub check_version : Claims → Option User → Checked
  check_version c none = refused session_stale
  check_version c (some u) = if eqb_ℤ u.pwd_version c.pv then accepted c else refused session_stale

  unfoldable pub check_claims : Database → Users → Option Claims → Checked
  check_claims db us none = refused unauthorized
  check_claims db us (some c) =
      if not db.up
      then accepted c
      else if db.get_fails
      then refused db_down
      else check_version c (get_user_by_id c.uid us.rows)

  unfoldable pub claims_from_request : Database → ℕ → Option Bytes → Users → Checked
  claims_from_request db now none us = refused unauthorized
  claims_from_request db now (some token) us =
      if is_empty token then refused unauthorized else check_claims db us (parse now token)

  -- a route behind `RequireAuth` and `CSRFGuard`, whose handler is given the claims
  unfoldable pub require_auth : Checked → Bool → Panel → (Claims → Panel × Reply) → Panel × Reply
  require_auth (refused c) guarded p next = (p, fail c)
  require_auth (accepted c) guarded p next = if guarded then next c else (p, fail forbidden)
