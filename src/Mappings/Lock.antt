-- ===== src/Mappings/Lock.antt =====
-- The optimistic lock of a mapping.
use frp_panel.Prelude.{
  ◌≡◌, refl, sym, subst, ap, ◌∙◌, true, false, List, arith, Bool-cases, Option-cases, inl, inr,
}
use frp_panel.Prelude.Int.{ℤ, pos, ◌+ℤ◌, eqb_ℤ_iff, +ℤ_parts}
use frp_panel.Prelude.Assoc.{Assoc, lookup, insert, int_eq, lookup-insert}
use frp_panel.Mappings.Store.{
  Mapping, TargetInput, Tables, Outcome, done, failed, optimistic_conflict, insert_targets,
  delete_targets, fits, replace_row, replace, has_version, update_mapping,
}

has_version-next :
    (id v : ℤ) (m : Mapping) (ms : Assoc ℤ Mapping)
    → has_version v (lookup id (insert id (record m { version = v +ℤ pos 1 }) ms)) ≡ false
unfolding has_version
has_version-next id v m ms =
    rw (lookup-insert id id (record m { version = v +ℤ pos 1 }) ms)
      (ground (arith, eqb_ℤ_iff id id, +ℤ_parts v (pos 1)))

has_version-replace_row :
    (db : Tables) (id v : ℤ) (m : Mapping) (tgs : List TargetInput)
    → (replace_row db id v m tgs).1 ≡ done tt
    → has_version v (lookup id (replace_row db id v m tgs).0.mappings) ≡ false
unfolding replace_row
has_version-replace_row db id v m tgs won =
    elim (Option-cases (insert_targets id tgs (delete_targets id db.targets))) [
      | inl e ↦ absurd (ground arith)
      | inr (ts, e) ↦ rw (e, replace_row) (has_version-next id v m db.mappings)
    ]

has_version-replace :
    (db : Tables) (id v : ℤ) (m : Mapping) (tgs : List TargetInput)
    → (replace db id v m tgs).1 ≡ done tt
    → has_version v (lookup id (replace db id v m tgs).0.mappings) ≡ false
unfolding replace
has_version-replace db id v m tgs won = elim (Bool-cases (fits m)) [
  | inl h ↦ rw h (has_version-replace_row db id v m tgs (rw h at won))
  | inr h ↦ absurd (ground arith)
]

current :
    (db : Tables) (id v : ℤ) (m : Mapping) (tgs : List TargetInput)
    → has_version v (lookup id db.mappings) ≡ true
    → update_mapping db id v m tgs ≡ replace db id v m tgs
unfolding update_mapping
current db id v m tgs h = rw h refl

stale :
    (db : Tables) (id v : ℤ) (m : Mapping) (tgs : List TargetInput)
    → has_version v (lookup id db.mappings) ≡ false
    → update_mapping db id v m tgs ≡ (db, failed optimistic_conflict)
unfolding update_mapping
stale db id v m tgs h = rw h refl

not_won : (o : Outcome (Unit {0})) → o ≡ failed optimistic_conflict → o ≡ done tt → ⊥
not_won o e e' = ground arith

-- Of two edits that started from the same version, the second is refused if the first went through,
-- and changes nothing.
pub update_mapping-twice :
    (db : Tables) (id v : ℤ) (m m' : Mapping) (tgs tgs' : List TargetInput)
    → (update_mapping db id v m tgs).1 ≡ done tt
    → let first = (update_mapping db id v m tgs).0 in
      update_mapping first id v m' tgs' ≡ (first, failed optimistic_conflict)
update_mapping-twice db id v m m' tgs tgs' won =
    elim (Bool-cases (has_version v (lookup id db.mappings))) [
      | inl h ↦
          let e = current db id v m tgs h in
          subst (λ r. update_mapping r.0 id v m' tgs' ≡ (r.0, failed optimistic_conflict)) (sym e)
            (stale (replace db id v m tgs).0 id v m' tgs'
              (has_version-replace db id v m tgs (sym (ap (λ r. r.1) e) ∙ won)))
      | inr h ↦
          absurd
            (not_won (update_mapping db id v m tgs).1 (ap (λ r. r.1) (stale db id v m tgs h)) won)
    ]
