-- ===== src/Mappings/Store.antt =====
-- The statements on the tables `mappings` and `mapping_targets` in internal/panel/store.go, with the
-- keys of internal/panel/migrations/0001_init.sql. A statement fails where it violates a unique key
-- or where a text is too long for its column (the server is in its default, strict mode), and a
-- transaction that fails leaves the tables alone. Lost connections are not modelled here, nor are the
-- times of creation.
use Prim.Native.String.{String}
use frp_panel.Prelude.{
  Bool, false, ◌&&◌, ◌||◌, Option, none, some, List, [], ◌∷◌, if◌then◌else◌, leb, length,
}
use frp_panel.Prelude.Int.{ℤ, pos, ◌+ℤ◌, eqb_ℤ}
use frp_panel.Prelude.Text.{codes}
use frp_panel.Prelude.Assoc.{Assoc, lookup, insert, erase, int_eq}

-- `Mapping` of internal/panel/models.go without its number
pub record Mapping : Type 0 where
  pub local_port : ℤ
  pub proto : String
  pub remark : String
  pub enabled : Bool
  pub version : ℤ

pub record MappingTarget : Type 0 where
  pub mapping_id : ℤ
  pub node_id : ℤ
  pub remote_port : ℤ
  pub tunnel_status : String

pub record TargetInput : Type 0 where
  pub node_id : ℤ
  pub remote_port : ℤ

-- `next_id` is the counter of AUTO_INCREMENT, which no rollback takes back.
pub record Tables : Type 0 where
  pub mappings : Assoc ℤ Mapping
  pub targets : List MappingTarget
  pub next_id : ℤ

pub data StoreError : Type 0 where
  duplicate optimistic_conflict too_long : StoreError

pub data Outcome {ℓ} (A : Type ℓ) : Type ℓ where
  done : A → Outcome A
  failed : StoreError → Outcome A

-- uq_mt_mapping_node and uq_mt_node_port
unfoldable pub clash : MappingTarget → MappingTarget → Bool
clash t u =
    eqb_ℤ t.node_id u.node_id
    && (eqb_ℤ t.mapping_id u.mapping_id || eqb_ℤ t.remote_port u.remote_port)

unfoldable pub clashes : MappingTarget → List MappingTarget → Bool
clashes t [] = false
clashes t (u ∷ us) = clash t u || clashes t us

unfoldable pub pending_target : ℤ → TargetInput → MappingTarget
pending_target id tg = record {
  mapping_id = id;
  node_id = tg.node_id;
  remote_port = tg.remote_port;
  tunnel_status = "pending";
}

-- the loop of INSERT INTO mapping_targets
unfoldable pub insert_targets :
    ℤ → List TargetInput → List MappingTarget → Option (List MappingTarget)
insert_targets id [] ts = some ts
insert_targets id (tg ∷ tgs) ts =
    let rest = insert_targets id tgs (pending_target id tg ∷ ts) in
    if clashes (pending_target id tg) ts then none else rest

-- DELETE FROM mapping_targets WHERE mapping_id=?
unfoldable pub delete_targets : ℤ → List MappingTarget → List MappingTarget
delete_targets id [] = []
delete_targets id (t ∷ ts) =
    let rest = delete_targets id ts in if eqb_ℤ t.mapping_id id then rest else t ∷ rest

-- VARCHAR(8) and VARCHAR(255), which count characters
unfoldable pub fits : Mapping → Bool
fits m = leb (length (codes m.proto)) 8 && leb (length (codes m.remark)) 255

-- the statements for a row that fits
unfoldable pub insert_mapping : Tables → Mapping → List TargetInput → Tables × Outcome ℤ
insert_mapping db m tgs =
    let id = db.next_id in
    elim (insert_targets id tgs db.targets) [
      | none ↦ (record db { next_id = id +ℤ pos 1 }, failed duplicate)
      | some ts ↦ (
        record {
          mappings = insert id (record m { version = pos 1 }) db.mappings;
          targets = ts;
          next_id = id +ℤ pos 1;
        },
        done id,
      )
    ]

unfoldable pub create_mapping : Tables → Mapping → List TargetInput → Tables × Outcome ℤ
create_mapping db m tgs = if fits m then insert_mapping db m tgs else (db, failed too_long)

-- the transaction once the UPDATE has found its row, and the row fits
unfoldable pub replace_row :
    Tables → ℤ → ℤ → Mapping → List TargetInput → Tables × Outcome (Unit {0})
replace_row db id version m tgs = elim (insert_targets id tgs (delete_targets id db.targets)) [
  | none ↦ (db, failed duplicate)
  | some ts ↦ (
    record db {
      mappings = insert id (record m { version = version +ℤ pos 1 }) db.mappings;
      targets = ts;
    },
    done tt,
  )
]

unfoldable pub replace : Tables → ℤ → ℤ → Mapping → List TargetInput → Tables × Outcome (Unit {0})
replace db id version m tgs =
    if fits m then replace_row db id version m tgs else (db, failed too_long)

-- `WHERE id=? AND version=?`
unfoldable pub has_version : ℤ → Option Mapping → Bool
has_version expected none = false
has_version expected (some m) = eqb_ℤ m.version expected

unfoldable pub update_mapping :
    Tables → ℤ → ℤ → Mapping → List TargetInput → Tables × Outcome (Unit {0})
update_mapping db id expected m tgs =
    if has_version expected (lookup id db.mappings)
    then replace db id expected m tgs
    else (db, failed optimistic_conflict)

unfoldable pub toggle : Bool → Option Mapping → Assoc ℤ Mapping → ℤ → Assoc ℤ Mapping
toggle enabled none ms id = ms
toggle enabled (some m) ms id =
    insert id (record m { enabled = enabled; version = m.version +ℤ pos 1 }) ms

unfoldable pub set_mapping_enabled : Tables → ℤ → ℤ → Bool → Tables × Outcome (Unit {0})
set_mapping_enabled db id expected enabled =
    let old = lookup id db.mappings in
    if has_version expected old
    then (record db { mappings = toggle enabled old db.mappings id }, done tt)
    else (db, failed optimistic_conflict)

unfoldable pub delete_mapping : Tables → ℤ → Tables
delete_mapping db id = record db {
  mappings = erase id db.mappings;
  targets = delete_targets id db.targets;
}

unfoldable pub update_target_status_by_port :
    ℤ → ℤ → String → List MappingTarget → List MappingTarget
update_target_status_by_port node port status [] = []
update_target_status_by_port node port status (t ∷ ts) =
    (if eqb_ℤ t.node_id node && eqb_ℤ t.remote_port port
      then record t { tunnel_status = status }
      else t)
    ∷ update_target_status_by_port node port status ts
