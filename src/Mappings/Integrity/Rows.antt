-- ===== src/Mappings/Integrity/Rows.antt =====
-- The rows of `mapping_targets`: their keys and their owners, and what the statements do to them.
use frp_panel.Prelude.{
  subst, ◌≡◌, refl, Bool, true, false, ◌||◌, none, some, List, [], ◌∷◌, arith, Bool-cases, inl, inr,
}
use frp_panel.Prelude.Int.{ℤ, ◌<ℤ◌, eqb_ℤ, eqb_ℤ_iff}
use frp_panel.Prelude.Assoc.{Assoc, lookup, insert, erase, int_eq, lookup-insert, lookup-erase}
use frp_panel.Mappings.Store.{
  Mapping, MappingTarget, TargetInput, Tables, clashes, pending_target, insert_targets,
  delete_targets,
}

-- The unique keys hold.
abbrev pub Distinct : List MappingTarget → Type 0
Distinct [] = Unit {0}
Distinct (t ∷ ts) = (clashes t ts ≡ false) × Distinct ts

abbrev pub exists : ℤ → Assoc ℤ Mapping → Bool
exists id ms = elim (lookup id ms) [ none ↦ false | some m ↦ true ]

-- Each target belongs to a mapping.
abbrev pub Owned : Assoc ℤ Mapping → List MappingTarget → Type 0
Owned ms [] = Unit {0}
Owned ms (t ∷ ts) = (exists t.mapping_id ms ≡ true) × Owned ms ts

pub record IsValid (db : Tables) : Type 0 where
  pub distinct : Distinct db.targets
  pub owned : Owned db.mappings db.targets
  -- numbers are handed out in order
  pub below : (id : ℤ) → exists id db.mappings ≡ true → id <ℤ db.next_id

pub Owned-mono :
    (ms ns : Assoc ℤ Mapping) (ts : List MappingTarget)
    → ((id : ℤ) → exists id ms ≡ true → exists id ns ≡ true)
    → Owned ms ts
    → Owned ns ts
Owned-mono ms ns [] h o = tt
Owned-mono ms ns (t ∷ ts) h o = (h t.mapping_id o.0, Owned-mono ms ns ts h o.1)

pub exists-insert :
    (id k : ℤ) (m : Mapping) (ms : Assoc ℤ Mapping)
    → exists id (insert k m ms) ≡ (eqb_ℤ k id || exists id ms)
exists-insert id k m ms = ground (arith, lookup-insert k id m ms)

pub clashes-delete :
    (t : MappingTarget) (id : ℤ) (ts : List MappingTarget)
    → clashes t ts ≡ false
    → clashes t (delete_targets id ts) ≡ false
unfolding clashes delete_targets
clashes-delete t id [] h = refl
clashes-delete t id (u ∷ us) h = ground (arith, clashes-delete t id us)

pub Distinct-delete :
    (id : ℤ) (ts : List MappingTarget) → Distinct ts → Distinct (delete_targets id ts)
unfolding delete_targets
Distinct-delete id [] d = tt
Distinct-delete id (t ∷ ts) d = elim (Bool-cases (eqb_ℤ t.mapping_id id)) [
  | inl h ↦ rw h (Distinct-delete id ts d.1)
  | inr h ↦ rw h (clashes-delete t id ts d.0, Distinct-delete id ts d.1)
]

-- What is left belongs to other mappings.
pub Owned-delete :
    (ms : Assoc ℤ Mapping) (id : ℤ) (ts : List MappingTarget)
    → Owned ms ts
    → Owned (erase id ms) (delete_targets id ts)
unfolding delete_targets
Owned-delete ms id [] o = tt
Owned-delete ms id (t ∷ ts) o = elim (Bool-cases (eqb_ℤ t.mapping_id id)) [
  | inl h ↦ rw h (Owned-delete ms id ts o.1)
  | inr h ↦ rw h (
    ground (
      arith,
      lookup-erase id t.mapping_id ms,
      eqb_ℤ_iff t.mapping_id id,
      eqb_ℤ_iff id t.mapping_id,
    ),
    Owned-delete ms id ts o.1,
  )
]

pub Owned-delete_same :
    (ms : Assoc ℤ Mapping) (id : ℤ) (ts : List MappingTarget)
    → Owned ms ts
    → Owned ms (delete_targets id ts)
unfolding delete_targets
Owned-delete_same ms id [] o = tt
Owned-delete_same ms id (t ∷ ts) o = elim (Bool-cases (eqb_ℤ t.mapping_id id)) [
  | inl h ↦ rw h (Owned-delete_same ms id ts o.1)
  | inr h ↦ rw h (o.0, Owned-delete_same ms id ts o.1)
]

-- Inserting rows keeps the keys, and the owner of the new rows is there.
pub insert_targets-valid :
    (ms : Assoc ℤ Mapping) (id : ℤ) (tgs : List TargetInput) (ts us : List MappingTarget)
    → exists id ms ≡ true
    → Distinct ts
    → Owned ms ts
    → insert_targets id tgs ts ≡ some us
    → Distinct us × Owned ms us
unfolding insert_targets pending_target
insert_targets-valid ms id [] ts us here d o e =
    let same : ts ≡ us = ground arith in subst (λ l. Distinct l × Owned ms l) same (d, o)
insert_targets-valid ms id (tg ∷ tgs) ts us here d o e =
    elim (Bool-cases (clashes (pending_target id tg) ts)) [
      | inl h ↦ absurd (ground arith)
      | inr h ↦
          insert_targets-valid ms id tgs (pending_target id tg ∷ ts) us here (h, d) (here, o)
            (ground arith)
    ]
