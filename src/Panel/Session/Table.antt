-- ===== src/Panel/Session/Table.antt =====
-- The table `users` and the statements on it in internal/panel/store.go. `same_name` compares names as
-- the collation of the column does. The hashes and the names fit their columns, and the versions do
-- not leave theirs. The times are left out.
use frp_panel.Prelude.{Bool, Option, none, some, List, [], ◌∷◌, ◌++◌, if◌then◌else◌}
use frp_panel.Prelude.Int.{ℤ, pos, ◌+ℤ◌, eqb_ℤ}
use frp_panel.Prelude.Text.{Bytes}

pub record User : Type 0 where
  pub id : ℤ
  pub username : Bytes
  pub password_hash : Bytes
  pub pwd_version : ℤ

pub record Users : Type 0 where
  pub rows : List User
  pub next_id : ℤ

-- What becomes of an UPDATE: it may go through although its answer is lost.
pub data Written : Type 0 where
  applied rejected lost : Written

unfoldable pub get_user_by_username : (Bytes → Bytes → Bool) → Bytes → List User → Option User
get_user_by_username same_name name [] = none
get_user_by_username same_name name (u ∷ us) =
    if same_name u.username name then some u else get_user_by_username same_name name us

unfoldable pub get_user_by_id : ℤ → List User → Option User
get_user_by_id id [] = none
get_user_by_id id (u ∷ us) = if eqb_ℤ u.id id then some u else get_user_by_id id us

abbrev add_user : Bytes → Bytes → Option User → Users → Users × ℤ
add_user name hash (some u) us = (us, u.id)
add_user name hash none us = (
  record {
    rows =
        us.rows
        ++ record { id = us.next_id; username = name; password_hash = hash; pwd_version = pos 1 }
          ∷ [];
    next_id = us.next_id +ℤ pos 1;
  },
  us.next_id,
)

-- A name that is there keeps its row.
unfoldable pub create_user : (Bytes → Bytes → Bool) → Bytes → Bytes → Users → Users × ℤ
create_user same_name name hash us =
    add_user name hash (get_user_by_username same_name name us.rows) us

-- UPDATE users SET password_hash=?, pwd_version=pwd_version+1 WHERE id=?
unfoldable pub set_password : ℤ → Bytes → List User → List User
set_password id hash [] = []
set_password id hash (u ∷ us) =
    (if eqb_ℤ u.id id
      then record u { password_hash = hash; pwd_version = u.pwd_version +ℤ pos 1 }
      else u)
    ∷ set_password id hash us

abbrev version_of : Option User → Option ℤ
version_of none = none
version_of (some u) = some u.pwd_version

-- The new version is read back by a statement that may fail.
unfoldable pub update_password : Written → Bool → ℤ → Bytes → Users → Users × Option ℤ
update_password rejected select_fails id hash us = (us, none)
update_password lost select_fails id hash us =
    (record us { rows = set_password id hash us.rows }, none)
update_password applied select_fails id hash us =
    let rows' = set_password id hash us.rows in
    (
      record us { rows = rows' },
      if select_fails then none else version_of (get_user_by_id id rows'),
    )
