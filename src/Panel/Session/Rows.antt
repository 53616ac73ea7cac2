-- ===== src/Panel/Session/Rows.antt =====
-- What the statements on the table `users` leave of its rows.
use frp_panel.Prelude.{
  ◌≡◌, refl, ◌∙◌, Bool, false, some, List, [], ◌∷◌, ◌++◌, arith, Bool-cases, Option-cases, inl, inr,
}
use frp_panel.Prelude.Int.{ℤ, pos, ◌+ℤ◌, ◌≤ℤ◌, eqb_ℤ, eqb_ℤ_iff, +ℤ_parts}
use frp_panel.Prelude.Text.{Bytes}
use frp_panel.Panel.Session.Table.{
  User, Users, Written, applied, rejected, lost, get_user_by_username, get_user_by_id, create_user,
  set_password, update_password,
}

-- the row of a user once its password was set
abbrev pub reset_row : Bytes → User → User
reset_row hash u = record u { password_hash = hash; pwd_version = u.pwd_version +ℤ pos 1 }

pub get-set_self :
    (id : ℤ) (hash : Bytes) (us : List User) (u : User)
    → get_user_by_id id us ≡ some u
    → get_user_by_id id (set_password id hash us) ≡ some (reset_row hash u)
unfolding get_user_by_id set_password
get-set_self id hash [] u h = absurd (ground arith)
get-set_self id hash (v ∷ us) u h = ground (arith, get-set_self id hash us u)

get-set_other :
    (id k : ℤ) (hash : Bytes) (us : List User)
    → eqb_ℤ k id ≡ false
    → get_user_by_id id (set_password k hash us) ≡ get_user_by_id id us
unfolding get_user_by_id set_password
get-set_other id k hash [] h = refl
get-set_other id k hash (v ∷ us) h =
    ground
      (arith, eqb_ℤ_iff v.id id, eqb_ℤ_iff v.id k, eqb_ℤ_iff k id, get-set_other id k hash us h)

pub get-append :
    (id : ℤ) (us vs : List User) (u : User)
    → get_user_by_id id us ≡ some u
    → get_user_by_id id (us ++ vs) ≡ some u
unfolding get_user_by_id
get-append id [] vs u h = absurd (ground arith)
get-append id (v ∷ us) vs u h = ground (arith, get-append id us vs u)

-- The user is there, with a password at least as new as version `v`.
abbrev pub NewerThan : ℤ → ℤ → List User → Type 0
NewerThan id v us = (u : User) × (get_user_by_id id us ≡ some u) × (v ≤ℤ u.pwd_version)

NewerThan-set :
    (id v k : ℤ) (hash : Bytes) (us : List User)
    → NewerThan id v us
    → NewerThan id v (set_password k hash us)
NewerThan-set id v k hash us (u, h, n) = elim (Bool-cases (eqb_ℤ k id)) [
  | inl same ↦
      rw ((eqb_ℤ_iff k id).0 same) (
        reset_row hash u,
        get-set_self id hash us u h,
        omega (arith, +ℤ_parts u.pwd_version (pos 1)),
      )
  | inr other ↦ (u, get-set_other id k hash us other ∙ h, n)
]

-- what a statement leaves of the rows
pub data Wrote (us vs : List User) : Type 0 where
  kept : vs ≡ us → Wrote us vs
  set : (k : ℤ) (hash : Bytes) → vs ≡ set_password k hash us → Wrote us vs
  added : (u : User) → vs ≡ us ++ u ∷ [] → Wrote us vs

pub NewerThan-Wrote :
    (id v : ℤ) (us vs : List User) → Wrote us vs → NewerThan id v us → NewerThan id v vs
NewerThan-Wrote id v us vs (kept e) n = rw e n
NewerThan-Wrote id v us vs (set k hash e) n = rw e (NewerThan-set id v k hash us n)
NewerThan-Wrote id v us vs (added u e) (w, h, n) = rw e (w, get-append id us (u ∷ []) w h, n)

pub update_password-Wrote :
    (w : Written) (select_fails : Bool) (id : ℤ) (hash : Bytes) (us : Users)
    → Wrote us.rows (update_password w select_fails id hash us).0.rows
unfolding update_password
update_password-Wrote rejected f id hash us = kept refl
update_password-Wrote lost f id hash us = set id hash refl
update_password-Wrote applied f id hash us = set id hash refl

pub create_user-Wrote :
    (same_name : Bytes → Bytes → Bool) (name hash : Bytes) (us : Users)
    → Wrote us.rows (create_user same_name name hash us).0.rows
unfolding create_user
create_user-Wrote same_name name hash us =
    elim (Option-cases (get_user_by_username same_name name us.rows)) [
      | inl e ↦ rw e (added _ refl)
      | inr (u, e) ↦ rw e (kept refl)
    ]
