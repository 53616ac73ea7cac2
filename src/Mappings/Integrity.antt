-- ===== src/Mappings/Integrity.antt =====
-- The tables stay consistent.
pub mod Rows
use Prim.Native.String.{String}
use frp_panel.Prelude.{
  subst, ◌≡◌, refl, ap, ◌∙◌, Bool, true, false, ◌&&◌, ◌||◌, none, some, List, [], ◌∷◌, arith,
  Bool-cases, Option-cases, inl, inr,
}
use frp_panel.Prelude.Int.{ℤ, pos, ◌+ℤ◌, ◌<ℤ◌, eqb_ℤ, eqb_ℤ_iff, +ℤ_parts, parts}
use frp_panel.Prelude.Assoc.{Assoc, lookup, insert, erase, int_eq, lookup-insert, lookup-erase}
use frp_panel.Mappings.Store.{
  Mapping, MappingTarget, TargetInput, Tables, clash, clashes, pending_target, insert_targets,
  delete_targets, fits, insert_mapping, create_mapping, replace_row, replace, has_version,
  update_mapping, toggle, set_mapping_enabled, delete_mapping, update_target_status_by_port,
}
use frp_panel.Mappings.Integrity.Rows.{
  Distinct, exists, Owned, IsValid, Owned-mono, exists-insert, clashes-delete, Distinct-delete,
  Owned-delete, Owned-delete_same, insert_targets-valid,
}

exists_keeps :
    (id k : ℤ) (m : Mapping) (ms : Assoc ℤ Mapping)
    → exists id ms ≡ true
    → exists id (insert k m ms) ≡ true
exists_keeps id k m ms h = exists-insert id k m ms ∙ ground arith

exists_self : (k : ℤ) (m : Mapping) (ms : Assoc ℤ Mapping) → exists k (insert k m ms) ≡ true
exists_self k m ms = exists-insert k k m ms ∙ ground (arith, eqb_ℤ_iff k k)

insert_mapping-IsValid :
    (db : Tables) (m : Mapping) (tgs : List TargetInput)
    → IsValid db
    → IsValid (insert_mapping db m tgs).0
unfolding insert_mapping
insert_mapping-IsValid db m tgs v = elim (Option-cases (insert_targets db.next_id tgs db.targets)) [
  | inl e ↦
      rw (e, insert_mapping)
        (record {
          distinct = v.distinct;
          owned = v.owned;
          below = λ k h. omega (arith, v.below k h, +ℤ_parts db.next_id (pos 1));
        })
  | inr (ts, e) ↦
      let row = record m { version = pos 1 } in
      let ms = insert db.next_id row db.mappings in
      let (d, o) =
        insert_targets-valid ms db.next_id tgs db.targets ts
          (exists_self db.next_id row db.mappings) v.distinct
          (Owned-mono db.mappings ms db.targets (λ k h. exists_keeps k db.next_id row db.mappings h)
            v.owned)
          e in
      rw (e, insert_mapping)
        (record {
          distinct = d;
          owned = o;
          below = λ k h. below_new k (exists-insert k db.next_id row db.mappings) h;
        })
]
  where
    below_new :
        (k : ℤ)
        → exists k (insert db.next_id (record m { version = pos 1 }) db.mappings)
          ≡ (eqb_ℤ db.next_id k || exists k db.mappings)
        → exists k (insert db.next_id (record m { version = pos 1 }) db.mappings) ≡ true
        → k <ℤ (db.next_id +ℤ pos 1)
    below_new k e h = elim (Bool-cases (eqb_ℤ db.next_id k)) [
      | inl new ↦ omega (arith, parts ((eqb_ℤ_iff db.next_id k).0 new), +ℤ_parts db.next_id (pos 1))
      | inr old ↦ omega (arith, v.below k (ground arith), +ℤ_parts db.next_id (pos 1))
    ]

create_mapping-IsValid :
    (db : Tables) (m : Mapping) (tgs : List TargetInput)
    → IsValid db
    → IsValid (create_mapping db m tgs).0
unfolding create_mapping
create_mapping-IsValid db m tgs v = elim (Bool-cases (fits m)) [
  | inl h ↦ rw h (insert_mapping-IsValid db m tgs v)
  | inr h ↦ rw h v
]

has_version-exists :
    (id expected : ℤ) (ms : Assoc ℤ Mapping)
    → has_version expected (lookup id ms) ≡ true
    → exists id ms ≡ true
unfolding has_version
has_version-exists id expected ms h = ground arith

exists-insert_old :
    (k id : ℤ) (m : Mapping) (ms : Assoc ℤ Mapping)
    → exists id ms ≡ true
    → exists k (insert id m ms) ≡ true
    → exists k ms ≡ true
exists-insert_old k id m ms h h' = ground (arith, exists-insert k id m ms, eqb_ℤ_iff id k)

replace_row-IsValid :
    (db : Tables) (id expected : ℤ) (m : Mapping) (tgs : List TargetInput)
    → exists id db.mappings ≡ true
    → IsValid db
    → IsValid (replace_row db id expected m tgs).0
unfolding replace_row
replace_row-IsValid db id expected m tgs here v =
    elim (Option-cases (insert_targets id tgs (delete_targets id db.targets))) [
      | inl e ↦ rw (e, replace_row) v
      | inr (ts, e) ↦
          let row = record m { version = expected +ℤ pos 1 } in
          let ms = insert id row db.mappings in
          let (d, o) =
            insert_targets-valid ms id tgs (delete_targets id db.targets) ts
              (exists_self id row db.mappings) (Distinct-delete id db.targets v.distinct)
              (Owned-mono db.mappings ms (delete_targets id db.targets)
                (λ k h. exists_keeps k id row db.mappings h)
                (Owned-delete_same db.mappings id db.targets v.owned))
              e in
          rw (e, replace_row)
            (record {
              distinct = d;
              owned = o;
              below = λ k h. v.below k (exists-insert_old k id row db.mappings here h);
            })
    ]

replace-IsValid :
    (db : Tables) (id expected : ℤ) (m : Mapping) (tgs : List TargetInput)
    → exists id db.mappings ≡ true
    → IsValid db
    → IsValid (replace db id expected m tgs).0
unfolding replace
replace-IsValid db id expected m tgs here v = elim (Bool-cases (fits m)) [
  | inl h ↦ rw h (replace_row-IsValid db id expected m tgs here v)
  | inr h ↦ rw h v
]

update_mapping-IsValid :
    (db : Tables) (id expected : ℤ) (m : Mapping) (tgs : List TargetInput)
    → IsValid db
    → IsValid (update_mapping db id expected m tgs).0
unfolding update_mapping
update_mapping-IsValid db id expected m tgs v =
    elim (Bool-cases (has_version expected (lookup id db.mappings))) [
      | inl h ↦
          rw (h, update_mapping)
            (replace-IsValid db id expected m tgs (has_version-exists id expected db.mappings h) v)
      | inr h ↦ rw (h, update_mapping) v
    ]

set_mapping_enabled-IsValid :
    (db : Tables) (id expected : ℤ) (enabled : Bool)
    → IsValid db
    → IsValid (set_mapping_enabled db id expected enabled).0
unfolding set_mapping_enabled toggle has_version
set_mapping_enabled-IsValid db id expected enabled v = elim (Option-cases (lookup id db.mappings)) [
  | inl e ↦ rw (e, set_mapping_enabled) v
  | inr (old, e) ↦ elim (Bool-cases (eqb_ℤ old.version expected)) [
    | inl h ↦
        let row = record old { enabled = enabled; version = old.version +ℤ pos 1 } in
        rw (e, h, set_mapping_enabled)
          (record {
            distinct = v.distinct;
            owned =
                Owned-mono db.mappings (insert id row db.mappings) db.targets
                  (λ k h'. exists_keeps k id row db.mappings h') v.owned;
            below = λ k h'. v.below k (exists-insert_old k id row db.mappings (ground arith) h');
          })
    | inr h ↦ rw (e, h, set_mapping_enabled) v
  ]
]

clashes-status :
    (t : MappingTarget) (node port : ℤ) (status : String) (us : List MappingTarget)
    → clashes t (update_target_status_by_port node port status us) ≡ clashes t us
unfolding clashes clash update_target_status_by_port
clashes-status t node port status [] = refl
clashes-status t node port status (u ∷ us) =
    elim (Bool-cases (eqb_ℤ u.node_id node && eqb_ℤ u.remote_port port)) [
      | inl h ↦ rw h (ap (λ b. clash t u || b) (clashes-status t node port status us))
      | inr h ↦ rw h (ap (λ b. clash t u || b) (clashes-status t node port status us))
    ]

same_keys :
    (t : MappingTarget) (status : String) (us : List MappingTarget)
    → clashes (record t { tunnel_status = status }) us ≡ clashes t us
unfolding clashes clash
same_keys t status [] = refl
same_keys t status (u ∷ us) = ap (λ b. clash t u || b) (same_keys t status us)

status-valid :
    (ms : Assoc ℤ Mapping) (node port : ℤ) (status : String) (ts : List MappingTarget)
    → Distinct ts
    → Owned ms ts
    → Distinct (update_target_status_by_port node port status ts)
      × Owned ms (update_target_status_by_port node port status ts)
unfolding update_target_status_by_port clash clashes
status-valid ms node port status [] d o = (tt, tt)
status-valid ms node port status (t ∷ ts) d o =
    let (d', o') = status-valid ms node port status ts d.1 o.1 in
    let free = clashes-status t node port status ts ∙ d.0 in
    elim (Bool-cases (eqb_ℤ t.node_id node && eqb_ℤ t.remote_port port)) [
      | inl h ↦ rw h (
        ((same_keys t status (update_target_status_by_port node port status ts) ∙ free), d'),
        (o.0, o'),
      )
      | inr h ↦ rw h ((free, d'), (o.0, o'))
    ]

delete_mapping-IsValid : (db : Tables) (id : ℤ) → IsValid db → IsValid (delete_mapping db id)
unfolding delete_mapping
delete_mapping-IsValid db id v = record {
  distinct = Distinct-delete id db.targets v.distinct;
  owned = Owned-delete db.mappings id db.targets v.owned;
  below = λ k h. v.below k (ground (arith, lookup-erase id k db.mappings));
}

-- a call of the store
pub data Request : Type 0 where
  create : Mapping → List TargetInput → Request
  update : ℤ → ℤ → Mapping → List TargetInput → Request
  enable : ℤ → ℤ → Bool → Request
  delete : ℤ → Request
  set_status : ℤ → ℤ → String → Request

unfoldable pub apply : Tables → Request → Tables
apply db (create m tgs) = (create_mapping db m tgs).0
apply db (update id expected m tgs) = (update_mapping db id expected m tgs).0
apply db (enable id expected enabled) = (set_mapping_enabled db id expected enabled).0
apply db (delete id) = delete_mapping db id
apply db (set_status node port status) = record db {
  targets = update_target_status_by_port node port status db.targets;
}

unfoldable pub apply_all : Tables → List Request → Tables
apply_all db [] = db
apply_all db (r ∷ rs) = apply_all (apply db r) rs

apply-IsValid : (db : Tables) (r : Request) → IsValid db → IsValid (apply db r)
unfolding apply
apply-IsValid db (create m tgs) v = create_mapping-IsValid db m tgs v
apply-IsValid db (update id expected m tgs) v = update_mapping-IsValid db id expected m tgs v
apply-IsValid db (enable id expected enabled) v =
    set_mapping_enabled-IsValid db id expected enabled v
apply-IsValid db (delete id) v = delete_mapping-IsValid db id v
apply-IsValid db (set_status node port status) v =
    let (d, o) = status-valid db.mappings node port status db.targets v.distinct v.owned in
    record { distinct = d; owned = o; below = v.below }

-- Whatever requests come, successful or not: no two targets share a node and a mapping or a node and
-- a port, each target belongs to a mapping, and the next number is above those in use, if this was
-- so at the start.
pub apply_all-IsValid : (rs : List Request) (db : Tables) → IsValid db → IsValid (apply_all db rs)
unfolding apply_all
apply_all-IsValid [] db v = v
apply_all-IsValid (r ∷ rs) db v = apply_all-IsValid rs (apply db r) (apply-IsValid db r v)
