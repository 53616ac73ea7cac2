-- ===== src/Mappings/Handlers/Settled.antt =====
-- What a request leaves that changes mappings.
use frp_panel.Prelude.{
  ◌≡◌, refl, Bool, true, false, not, ◌&&◌, ◌||◌, Option, none, some, List, if◌then◌else◌,
  Option-cases, inl, inr,
}
use frp_panel.Prelude.Int.{ℤ}
use frp_panel.Prelude.Assoc.{lookup, int_eq}
use frp_panel.Panel.Errors.{Code}
use frp_panel.Mappings.Store.{
  Mapping, TargetInput, Tables, Outcome, done, failed, insert_targets, delete_targets, fits,
  insert_mapping, replace_row, replace, create_mapping, has_version, update_mapping,
  set_mapping_enabled, delete_mapping,
}
use frp_panel.Mappings.Validate.{MappingReq, MappingError}
use frp_panel.Mappings.Handlers.{
  Reply, fail, created, ok, World, Request, create, update, delete, toggle, mapping_of, store_code,
  validated, finish, create_checked, handle_create_mapping, update_checked, handle_update_mapping,
  handle_delete_mapping, toggle_found, handle_toggle_mapping, serve,
}

abbrev pub is_fail : Reply → Bool
is_fail (fail c) = true
is_fail _ = false

-- A statement that fails leaves the rows alone.
abbrev Kept : {A : Type 0} → Tables → Tables × Outcome A → Type 0
Kept db (db', failed e) = (db'.mappings ≡ db.mappings) × (db'.targets ≡ db.targets)
Kept db (db', done a) = Unit {0}

insert_mapping-Kept :
    (db : Tables) (m : Mapping) (tgs : List TargetInput) → Kept db (insert_mapping db m tgs)
unfolding insert_mapping
insert_mapping-Kept db m tgs = elim (Option-cases (insert_targets db.next_id tgs db.targets)) [
  | inl e ↦ rw (e, insert_mapping) (refl, refl)
  | inr (ts, e) ↦ rw (e, insert_mapping) tt
]

replace_row-Kept :
    (db : Tables) (id version : ℤ) (m : Mapping) (tgs : List TargetInput)
    → Kept db (replace_row db id version m tgs)
unfolding replace_row
replace_row-Kept db id version m tgs =
    elim (Option-cases (insert_targets id tgs (delete_targets id db.targets))) [
      | inl e ↦ rw (e, replace_row) (refl, refl)
      | inr (ts, e) ↦ rw (e, replace_row) tt
    ]

Kept-if :
    {A : Type 0} (db : Tables) (b : Bool) (q q' : Tables × Outcome A)
    → Kept db q
    → Kept db q'
    → Kept db (if b then q else q')
Kept-if db true q q' h h' = h
Kept-if db false q q' h h' = h'

create_mapping-Kept :
    (db : Tables) (m : Mapping) (tgs : List TargetInput) → Kept db (create_mapping db m tgs)
unfolding create_mapping
create_mapping-Kept db m tgs = Kept-if db (fits m) _ _ (insert_mapping-Kept db m tgs) (refl, refl)

replace-Kept :
    (db : Tables) (id version : ℤ) (m : Mapping) (tgs : List TargetInput)
    → Kept db (replace db id version m tgs)
unfolding replace
replace-Kept db id version m tgs =
    Kept-if db (fits m) _ _ (replace_row-Kept db id version m tgs) (refl, refl)

update_mapping-Kept :
    (db : Tables) (id expected : ℤ) (m : Mapping) (tgs : List TargetInput)
    → Kept db (update_mapping db id expected m tgs)
unfolding update_mapping
update_mapping-Kept db id expected m tgs =
    Kept-if db (has_version expected (lookup id db.mappings)) _ _
      (replace-Kept db id expected m tgs) (refl, refl)

set_mapping_enabled-Kept :
    (db : Tables) (id expected : ℤ) (enabled : Bool)
    → Kept db (set_mapping_enabled db id expected enabled)
unfolding set_mapping_enabled
set_mapping_enabled-Kept db id expected enabled =
    Kept-if db (has_version expected (lookup id db.mappings)) _ _ tt (refl, refl)

module _ {S : Type 0} (sync_all : Tables → S → S) where
  -- Either an error, no row changed and no node synced, or no error and `SyncAll` with the tables as
  -- they are afterwards.
  pub data IsSettled (db : Tables) (s : S) (q : Tables × S × Reply) : Type 0 where
    refused :
        (c : Code)
        → q.2 ≡ fail c
        → q.0.mappings ≡ db.mappings
        → q.0.targets ≡ db.targets
        → q.1 ≡ s
        → IsSettled db s q
    synced : is_fail q.2 ≡ false → q.1 ≡ sync_all q.0 s → IsSettled db s q

  IsSettled-fail : (db : Tables) (s : S) (c : Code) → IsSettled db s (db, s, fail c)
  IsSettled-fail db s c = refused c refl refl refl refl

  IsSettled-if :
      (db : Tables) (s : S) (b : Bool) {q q' : Tables × S × Reply}
      → IsSettled db s q
      → IsSettled db s q'
      → IsSettled db s (if b then q else q')
  IsSettled-if db s true h h' = h
  IsSettled-if db s false h h' = h'

  finish-IsSettled :
      {A : Type 0} (db : Tables) (s : S) (reply : A → Reply) (q : Tables × Outcome A)
      → ((a : A) → is_fail (reply a) ≡ false)
      → Kept db q
      → IsSettled db s (finish sync_all reply s q)
  unfolding finish
  finish-IsSettled db s reply (db', failed e) good (m, t) = refused (store_code e) refl m t refl
  finish-IsSettled db s reply (db', done a) good k = synced (good a) refl

  create_checked-IsSettled :
      (w : World) (req : MappingReq) (e : Option MappingError) (db : Tables) (s : S)
      → IsSettled db s (create_checked sync_all w req e db s)
  unfolding create_checked
  create_checked-IsSettled w req (some e) db s = IsSettled-fail db s _
  create_checked-IsSettled w req none db s =
      IsSettled-if db s w.write_fails (IsSettled-fail db s _) (
        finish-IsSettled db s created _ (λ a. refl)
          (create_mapping-Kept db (mapping_of req) req.targets))

  update_checked-IsSettled :
      (w : World) (id : ℤ) (req : MappingReq) (e : Option MappingError) (db : Tables) (s : S)
      → IsSettled db s (update_checked sync_all w id req e db s)
  unfolding update_checked
  update_checked-IsSettled w id req (some e) db s = IsSettled-fail db s _
  update_checked-IsSettled w id req none db s =
      IsSettled-if db s w.write_fails (IsSettled-fail db s _) (
        finish-IsSettled db s (λ _. ok) _ (λ a. refl)
          (update_mapping-Kept db id req.version (mapping_of req) req.targets))

  toggle_found-IsSettled :
      (w : World) (id : ℤ) (enabled : Bool) (version : ℤ) (m : Option Mapping) (db : Tables) (s : S)
      → IsSettled db s (toggle_found sync_all w id enabled version m db s)
  unfolding toggle_found
  toggle_found-IsSettled w id enabled version none db s = IsSettled-fail db s _
  toggle_found-IsSettled w id enabled version (some m) db s =
      IsSettled-if db s (enabled && not (w.listening m.local_port m.proto)) (IsSettled-fail db s _)
        (IsSettled-if db s w.write_fails (IsSettled-fail db s _) (
          finish-IsSettled db s (λ _. ok) _ (λ a. refl)
            (set_mapping_enabled-Kept db id version enabled)))

  -- Whatever request comes: either it is answered with an error, no row of a mapping or of a target
  -- has changed and no node was synced, or it is answered without an error and `SyncAll` has run with
  -- the tables as they are afterwards.
  pub serve-IsSettled :
      (w : World) (r : Request) (db : Tables) (s : S) → IsSettled db s (serve sync_all w r db s)
  unfolding serve handle_create_mapping handle_update_mapping handle_delete_mapping
      handle_toggle_mapping
  serve-IsSettled w (create none) db s = IsSettled-fail db s _
  serve-IsSettled w (create (some req)) db s =
      IsSettled-if db s (not w.db_up) (IsSettled-fail db s _)
        (create_checked-IsSettled w req (validated w req) db s)
  serve-IsSettled w (update (some id) (some req)) db s =
      IsSettled-if db s (not w.db_up) (IsSettled-fail db s _)
        (update_checked-IsSettled w id req (validated w req) db s)
  serve-IsSettled w (update _ _) db s = IsSettled-fail db s _
  serve-IsSettled w (delete none) db s = IsSettled-fail db s _
  serve-IsSettled w (delete (some id)) db s =
      IsSettled-if db s (not w.db_up || w.write_fails) (IsSettled-fail db s _)
        (finish-IsSettled db s (λ _. ok) (delete_mapping db id, done tt) (λ a. refl) tt)
  serve-IsSettled w (toggle (some id) (some (enabled, version))) db s =
      IsSettled-if db s (not w.db_up || w.read_fails) (IsSettled-fail db s _)
        (toggle_found-IsSettled w id enabled version (lookup id db.mappings) db s)
  serve-IsSettled w (toggle _ _) db s = IsSettled-fail db s _
