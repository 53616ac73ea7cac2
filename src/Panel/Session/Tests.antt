-- ===== src/Panel/Session/Tests.antt =====
-- One administrator, with passwords that are their own hashes, and tokens that hold their claims.
use frp_panel.Prelude.{
  ℕ, ◌*◌, ◌≡◌, ◌≢◌, refl, ap, true, false, Option, none, some, List, [], ◌∷◌, arith, if◌then◌else◌,
  ◌==◌, ltb,
}
use frp_panel.Prelude.Int.{ℤ, pos, negsuc, ◌+ℤ◌}
use frp_panel.Prelude.Text.{Bytes, codes, same_bytes}
use frp_panel.Limiter.{new_limiter, second, blocked, success, login_blocked}
use frp_panel.Panel.Errors.{session_stale}
use frp_panel.Panel.Session.Table.{
  User, applied, get_user_by_username, get_user_by_id, set_password, update_password,
}
use frp_panel.Panel.Session.{
  Claims, Crypto, Method, hmac, Reply, session, Checked, refused, accepted, Panel, Database, Login,
  ChangePassword, jwt_ttl, is_safe, csrf_guard, key_of, claims_of, issue, parse, check_version,
  check_claims, claims_from_request, require_auth,
}
use frp_panel.Panel.Session.Handlers.{
  check_user, login_body, handle_login, reissue, write_password, check_old, change_body,
  handle_change_password, change_route, login, change, step, run,
}
use frp_panel.Panel.Session
use frp_panel.Panel.Session.Revoked.{change_password-revokes}
use frp_panel.Panel.Session.Lasting.{session-lasts}

abbrev tag : ℤ → ℕ
tag (pos n) = 0
tag (negsuc n) = 1

abbrev size : ℤ → ℕ
size (pos n) = n
size (negsuc n) = n

abbrev int_of : ℕ → ℕ → ℤ
int_of t n = if t == 0 then pos n else negsuc n

int_of-tag : (z : ℤ) → int_of (tag z) (size z) ≡ z
int_of-tag (pos n) = refl
int_of-tag (negsuc n) = refl

abbrev encode : Claims → Bytes
encode c = tag c.uid ∷ size c.uid ∷ tag c.pv ∷ size c.pv ∷ c.expires_at ∷ c.issued_at ∷ c.uname

abbrev decode : Bytes → Option Claims
decode (a ∷ b ∷ d ∷ e ∷ f ∷ g ∷ name) =
    some (record { uid = int_of a b; uname = name; pv = int_of d e; expires_at = f; issued_at = g })
decode _ = none

abbrev in_time : ℕ → Option Claims → Option Claims
in_time now none = none
in_time now (some c) = if ltb now (c.expires_at * second) then some c else none

decode-encode : (c : Claims) → decode (encode c) ≡ some c
decode-encode c = ap some (λ i. record {
  uid = int_of-tag c.uid i;
  uname = c.uname;
  pv = int_of-tag c.pv i;
  expires_at = c.expires_at;
  issued_at = c.issued_at;
})

abbrev signed_by : Bytes → Claims → Bytes
signed_by key c = encode c

abbrev parsed : (Method → Option Bytes) → ℕ → Bytes → Option Claims
parsed keys now token = in_time now (decode token)

signed_by-some : (key : Bytes) (c : Claims) → signed_by key c ≢ []
signed_by-some key c e = ground arith

parsed-signed_by :
    (keys : Method → Option Bytes) (key : Bytes) (now : ℕ) (c : Claims)
    → keys hmac ≡ some key
    → parsed keys now (signed_by key c) ≡ (if ltb now (c.expires_at * second) then some c else none)
parsed-signed_by keys key now c h = ap (in_time now) (decode-encode c)

abbrev crypto : Crypto
crypto = record {
  generate = λ salt pw. some pw;
  compare = same_bytes;
  signed = signed_by;
  parse_claims = parsed;
  signed_some = signed_by-some;
  parse_signed = parsed-signed_by;
}

abbrev admin : User
admin = record {
  id = pos 1;
  username = codes "admin";
  password_hash = codes "secret01";
  pwd_version = pos 1;
}

abbrev start : Panel
start = record { users = record { rows = admin ∷ []; next_id = pos 2 }; limiter = new_limiter }

abbrev secret : Bytes
secret = codes "key"

abbrev good_db : Database
good_db = record { up = true; get_fails = false }

abbrev token : Bytes
token = issue crypto same_bytes secret 0 admin

abbrev new_password : ChangePassword
new_password = record {
  cookie = some token;
  csrf_cookie = some (codes "abc");
  csrf_header = codes "abc";
  now = 1000;
  issued = 2000;
  csrf = codes "def";
  salt = [];
  auth_db = good_db;
  db = good_db;
  written = applied;
  select_fails = false;
  body = some (codes "secret01", codes "secret02");
}

abbrev attempt : Bytes → ℕ → Login
attempt pw t = record {
  ip = "10.0.0.1";
  now = t * second;
  later = t * second;
  issued = t * second;
  csrf = codes "abc";
  db = good_db;
  body = some (codes "admin", pw);
}

change_password-revokes_example :
    claims_from_request crypto same_bytes secret good_db 3000
      (some token)
      (run crypto same_bytes secret
        (login (attempt (codes "secret02") 5) ∷ [])
        (step crypto same_bytes secret (change new_password) start).0).users
    ≡ refused session_stale
unfolding run step change_route require_auth claims_from_request check_claims check_version parse
    issue claims_of key_of get_user_by_id same_bytes csrf_guard is_safe handle_change_password
    change_body check_old write_password reissue update_password set_password ◌+ℤ◌
change_password-revokes_example =
    change_password-revokes crypto same_bytes secret start admin 0 []
      (login (attempt (codes "secret02") 5) ∷ []) new_password
      (claims_of crypto same_bytes secret 0 admin)
      (issue crypto same_bytes secret 2000 (record admin { pwd_version = pos 2 })) (codes "def")
      good_db 3000 refl refl refl refl refl refl

session-lasts_example :
    (c : Claims) × (claims_from_request crypto same_bytes secret good_db
        (1000 * second)
        (some (issue crypto same_bytes secret (5 * second) admin))
        (run crypto same_bytes secret
          (login (attempt (codes "wrong") 6) ∷ [])
          (handle_login crypto same_bytes secret (attempt (codes "secret01") 5) start).0).users
      ≡ accepted c)
unfolding handle_login login_body check_user login_blocked blocked success new_limiter
    get_user_by_username get_user_by_id same_bytes
session-lasts_example =
    session-lasts crypto same_bytes secret start (attempt (codes "secret01") 5)
      (issue crypto same_bytes secret (5 * second) admin) (codes "abc")
      (login (attempt (codes "wrong") 6) ∷ []) good_db (1000 * second) (refl, tt) refl tt
      (omega arith) refl

abbrev five_wrong : List Login
five_wrong =
    attempt (codes "a") 1
    ∷ attempt (codes "b") 2
    ∷ attempt (codes "c") 3
    ∷ attempt (codes "d") 4
    ∷ attempt (codes "e") 5
    ∷ []
