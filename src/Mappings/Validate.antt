-- ===== src/Mappings/Validate.antt =====
-- `validateMapping` of internal/panel/handlers_mappings.go, and what it spares the store. The local
-- listener and the answers of the nodes are arguments.
use Prim.Native.String.{String}
use text.Mathlib.Text.{◌==◌ as str_eq}
use text.Mathlib.TextEquality.{eq_iff as str_eq_iff}
use frp_panel.Prelude.{
  ◌≡◌, refl, sym, ap, ◌∙◌, Bool, true, false, not, ◌&&◌, ◌||◌, Option, none, some, List, [], ◌∷◌,
  arith, if◌then◌else◌, Bool-cases, inl, inr, ◌≤◌, leb, length, subst,
}
use frp_panel.Prelude.Int.{ℤ, pos, eqb_ℤ, eqb_ℤ_iff}
use frp_panel.Prelude.Text.{codes}
use frp_panel.Prelude.Assoc.{Assoc, lookup, int_eq, lookup-insert}
use frp_panel.Ports.Policy.{PortError, validate_port, validate_remote_port, is_reserved}
use frp_panel.Mappings.Store.{
  Mapping, MappingTarget, TargetInput, Tables, done, clash, clashes, pending_target, insert_targets,
  fits, insert_mapping, create_mapping,
}
use frp_panel.Mappings.Integrity.Rows.{IsValid, Owned, exists}

pub record MappingReq : Type 0 where
  pub local_port : ℤ
  pub proto : String
  pub remark : String
  pub enabled : Bool
  pub version : ℤ
  pub targets : List TargetInput

-- the mapping that the handlers make of a request
unfoldable pub mapping_of : MappingReq → Mapping
mapping_of req = record {
  local_port = req.local_port;
  proto = req.proto;
  remark = req.remark;
  enabled = req.enabled;
  version = req.version;
}

-- the errors of the request, which the source gives a code and a text
pub data MappingError : Type 0 where
  bad_local_port reserved_remote_port bad_remote_port : PortError → MappingError
  bad_proto no_targets duplicate_node local_no_listen port_busy : MappingError

-- `seen[t.NodeID]`
unfoldable pub seen_in : ℤ → List ℤ → Bool
seen_in node [] = false
seen_in node (n ∷ ns) = eqb_ℤ n node || seen_in node ns

abbrev remote_error : ℤ → Option PortError → Option MappingError
remote_error port none = none
remote_error port (some e) =
    some (if is_reserved port then reserved_remote_port e else bad_remote_port e)

abbrev first_error : Option MappingError → Option MappingError → Option MappingError
first_error none rest = rest
first_error (some e) rest = some e

unfoldable pub check_targets : List ℤ → List TargetInput → Option MappingError
check_targets seen [] = none
check_targets seen (t ∷ ts) =
    let rest = check_targets (t.node_id ∷ seen) ts in
    if seen_in t.node_id seen
    then some duplicate_node
    else first_error (remote_error t.remote_port (validate_remote_port t.remote_port)) rest

-- A node that is not connected or does not answer says nothing.
unfoldable pub check_occupied :
    (ℤ → ℤ → String → Option Bool) → String → List TargetInput → Option MappingError
check_occupied available proto [] = none
check_occupied available proto (t ∷ ts) =
    let rest = check_occupied available proto ts in
    elim (available t.node_id t.remote_port proto) [
      | none ↦ rest
      | some is_free ↦ if is_free then rest else some port_busy
    ]

abbrev none_given : List TargetInput → Bool
none_given [] = true
none_given (t ∷ ts) = false

unfoldable pub check_enabled :
    (ℤ → String → Bool) → (ℤ → ℤ → String → Option Bool) → MappingReq → Option MappingError
check_enabled listening available req =
    if not req.enabled
    then none
    else if not (listening req.local_port req.proto)
    then some local_no_listen
    else check_occupied available req.proto req.targets

abbrev local_error : Option PortError → Option MappingError
local_error none = none
local_error (some e) = some (bad_local_port e)

unfoldable pub validate_mapping :
    (ℤ → String → Bool) → (ℤ → ℤ → String → Option Bool) → MappingReq → Option MappingError
validate_mapping listening available req =
    first_error (local_error (validate_port req.local_port)) (
      if not (str_eq req.proto "tcp") && not (str_eq req.proto "udp")
      then some bad_proto
      else if none_given req.targets
      then some no_targets
      else first_error (check_targets [] req.targets) (check_enabled listening available req))

-- Does a target have the node and the port?
unfoldable pub taken : TargetInput → List MappingTarget → Bool
taken tg [] = false
taken tg (u ∷ us) = eqb_ℤ u.node_id tg.node_id && eqb_ℤ u.remote_port tg.remote_port || taken tg us

abbrev pub AllFree : List TargetInput → List MappingTarget → Type 0
AllFree [] us = Unit {0}
AllFree (tg ∷ tgs) us = (taken tg us ≡ false) × AllFree tgs us

-- the targets that have been inserted, in front of those that were there
abbrev inserted : ℤ → List TargetInput → List MappingTarget → List MappingTarget
inserted id [] us = us
inserted id (n ∷ ns) us = pending_target id n ∷ inserted id ns us

abbrev nodes : List TargetInput → List ℤ
nodes [] = []
nodes (n ∷ ns) = n.node_id ∷ nodes ns

clashes-inserted :
    (id : ℤ) (tg : TargetInput) (ns : List TargetInput) (us : List MappingTarget)
    → seen_in tg.node_id (nodes ns) ≡ false
    → clashes (pending_target id tg) (inserted id ns us) ≡ clashes (pending_target id tg) us
unfolding clashes clash seen_in pending_target
clashes-inserted id tg [] us h = refl
clashes-inserted id tg (n ∷ ns) us h = ground (
  arith,
  clashes-inserted id tg ns us,
  eqb_ℤ_iff tg.node_id n.node_id,
  eqb_ℤ_iff n.node_id tg.node_id,
)

clash_of_bools : true ≡ false → ⊥
clash_of_bools e = ground arith

other_mapping :
    (ms : Assoc ℤ Mapping) (id k : ℤ)
    → exists id ms ≡ false
    → exists k ms ≡ true
    → eqb_ℤ id k ≡ false
other_mapping ms id k new old = elim (Bool-cases (eqb_ℤ id k)) [
  | inl same ↦
      absurd (clash_of_bools (sym (ap (λ x. exists x ms) ((eqb_ℤ_iff id k).0 same) ∙ old) ∙ new))
  | inr other ↦ other
]

-- A target of another mapping clashes by its port only.
clashes-taken :
    (id : ℤ) (ms : Assoc ℤ Mapping) (tg : TargetInput) (us : List MappingTarget)
    → exists id ms ≡ false
    → Owned ms us
    → taken tg us ≡ false
    → clashes (pending_target id tg) us ≡ false
unfolding clashes clash taken pending_target
clashes-taken id ms tg [] new o h = refl
clashes-taken id ms tg (u ∷ us) new (o, os) h = ground (
  arith,
  other_mapping ms id u.mapping_id new o,
  clashes-taken id ms tg us new os,
  eqb_ℤ_iff tg.node_id u.node_id,
  eqb_ℤ_iff u.node_id tg.node_id,
  eqb_ℤ_iff tg.remote_port u.remote_port,
  eqb_ℤ_iff u.remote_port tg.remote_port,
)

first_error-none : (e f : Option MappingError) → first_error e f ≡ none → (e ≡ none) × (f ≡ none)
first_error-none none f h = (refl, h)
first_error-none (some e) f h = absurd (ground arith)

if_none :
    (b : Bool) (e : MappingError) (f : Option MappingError)
    → (if b then some e else f) ≡ none
    → f ≡ none
if_none b e f h = ground arith

insert_targets-checked :
    (id : ℤ) (ms : Assoc ℤ Mapping) (tgs ns : List TargetInput) (us : List MappingTarget)
    → exists id ms ≡ false
    → Owned ms us
    → check_targets (nodes ns) tgs ≡ none
    → AllFree tgs us
    → (ts : List MappingTarget) × (insert_targets id tgs (inserted id ns us) ≡ some ts)
unfolding insert_targets check_targets
insert_targets-checked id ms [] ns us new o c f = (inserted id ns us, refl)
insert_targets-checked id ms (tg ∷ tgs) ns us new o c f =
    elim (Bool-cases (seen_in tg.node_id (nodes ns))) [
      | inl twice ↦ absurd (ground arith)
      | inr once ↦
          let rest = insert_targets-checked id ms tgs (tg ∷ ns) us new o (check_rest once) f.1 in
          (
            rest.0,
            rw (clashes-inserted id tg ns us once, clashes-taken id ms tg us new o f.0) rest.1,
          )
    ]
  where
    check_rest :
        seen_in tg.node_id (nodes ns) ≡ false → check_targets (tg.node_id ∷ nodes ns) tgs ≡ none
    check_rest once =
        (first_error-none (remote_error tg.remote_port (validate_remote_port tg.remote_port))
          (check_targets (tg.node_id ∷ nodes ns) tgs) (rw once at c)).1

fits_proto :
    (proto : String)
    → (not (str_eq proto "tcp") && not (str_eq proto "udp")) ≡ false
    → leb (length (codes proto)) 8 ≡ true
fits_proto proto h = elim (Bool-cases (str_eq proto "tcp")) [
  | inl tcp ↦
      subst (λ s. leb (length (codes s)) 8 ≡ true) (sym ((str_eq_iff proto "tcp").0 tcp)) refl
  | inr e ↦ elim (Bool-cases (str_eq proto "udp")) [
    | inl udp ↦
        subst (λ s. leb (length (codes s)) 8 ≡ true) (sym ((str_eq_iff proto "udp").0 udp)) refl
    | inr e' ↦ absurd (ground arith)
  ]
]

not_bad :
    (b : Bool) (e : MappingError) (f : Option MappingError)
    → (if b then some e else f) ≡ none
    → b ≡ false
not_bad b e f h = ground arith

-- A request that passes the checks and has a remark of at most 255 characters is stored in valid
-- tables, if no target there has one of its nodes with the same port: its mapping is then there under
-- the next number, in version 1.
pub create_mapping-validated :
    (listening : ℤ → String → Bool) (available : ℤ → ℤ → String → Option Bool) (req : MappingReq)
    (db : Tables)
    → validate_mapping listening available req ≡ none
    → length (codes req.remark) ≤ 255
    → IsValid db
    → AllFree req.targets db.targets
    → let (db', answer) = create_mapping db (mapping_of req) req.targets in
      (answer ≡ done db.next_id)
      × (lookup db.next_id db'.mappings ≡ some (record (mapping_of req) { version = pos 1 }))
unfolding create_mapping insert_mapping validate_mapping fits mapping_of
create_mapping-validated listening available req db h short v free =
    let (ts, e) =
      insert_targets-checked db.next_id db.mappings req.targets [] db.targets unused v.owned checked
        free in
    rw (fitting, e, insert_mapping)
      (
        refl,
        lookup-insert db.next_id db.next_id (record (mapping_of req) { version = pos 1 })
              db.mappings
            ∙ ap
                (λ b.
                  if b
                  then some (record (mapping_of req) { version = pos 1 })
                  else lookup db.next_id db.mappings)
                ((eqb_ℤ_iff db.next_id db.next_id).1 refl),
      )
  where
    unused : exists db.next_id db.mappings ≡ false
    unused = elim (Bool-cases (exists db.next_id db.mappings)) [
      | inl used ↦ absurd (omega (arith, v.below db.next_id used))
      | inr free ↦ free
    ]

    with_proto :
        (if not (str_eq req.proto "tcp") && not (str_eq req.proto "udp")
          then some bad_proto
          else if none_given req.targets
          then some no_targets
          else first_error (check_targets [] req.targets) (check_enabled listening available req))
        ≡ none
    with_proto = (first_error-none (local_error (validate_port req.local_port)) _ h).1

    checked : check_targets [] req.targets ≡ none
    checked =
        (first_error-none (check_targets [] req.targets) (check_enabled listening available req) (
          if_none (none_given req.targets) no_targets _ (
            if_none (not (str_eq req.proto "tcp") && not (str_eq req.proto "udp")) bad_proto _
              with_proto))).0

    fitting : fits (mapping_of req) ≡ true
    fitting = ground (
      arith,
      fits_proto req.proto (
          not_bad (not (str_eq req.proto "tcp") && not (str_eq req.proto "udp")) bad_proto _
            with_proto),
    )
