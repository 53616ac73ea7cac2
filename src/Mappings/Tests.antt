-- ===== src/Mappings/Tests.antt =====
-- A mapping with two targets on an empty database.
use Prim.Native.String.{String}
use frp_panel.Prelude.{◌≡◌, refl, true, Bool, Option, none, some, List, [], ◌∷◌, arith}
use frp_panel.Prelude.Int.{ℤ, pos}
use frp_panel.Prelude.Assoc.{lookup, int_eq}
use frp_panel.Ports.Policy.{validate_port, validate_remote_port, reserved_reason}
use frp_panel.Mappings.Store.{
  Mapping, TargetInput, Tables, done, failed, optimistic_conflict, create_mapping, update_mapping,
  insert_targets, fits, replace_row, replace, delete_targets, has_version, clashes, clash,
  pending_target,
}
use frp_panel.Mappings.Integrity.Rows.{IsValid}
use frp_panel.Mappings.Integrity.{Request, create, update, delete, apply_all, apply_all-IsValid}
use frp_panel.Mappings.Lock.{update_mapping-twice}
use frp_panel.Mappings.Validate.{
  MappingReq, validate_mapping, check_targets, check_enabled, check_occupied, seen_in, taken,
  mapping_of, create_mapping-validated,
}

abbrev no_tables : Tables
no_tables = record { mappings = []; targets = []; next_id = pos 1 }

no_tables-IsValid : IsValid no_tables
unfolding lookup
no_tables-IsValid = record { distinct = tt; owned = tt; below = λ id h. absurd (ground arith) }

abbrev web : Mapping
web = record {
  local_port = pos 8080;
  proto = "tcp";
  remark = "web";
  enabled = true;
  version = pos 1;
}

abbrev two_nodes : List TargetInput
two_nodes =
    record { node_id = pos 1; remote_port = pos 9000 }
    ∷ record { node_id = pos 2; remote_port = pos 9000 }
    ∷ []

abbrev requests : List Request
requests =
    create web two_nodes
    ∷ create web two_nodes
    ∷ update (pos 1) (pos 1) web []
    ∷ delete (pos 1)
    ∷ []

apply_all-IsValid_example : IsValid (apply_all no_tables requests)
apply_all-IsValid_example = apply_all-IsValid requests no_tables no_tables-IsValid

-- mapping 1 in version 1
abbrev one_mapping : Tables
one_mapping = record { mappings = (pos 1, web) ∷ []; targets = []; next_id = pos 2 }

update_mapping-twice_example :
    (let first = (update_mapping one_mapping (pos 1) (pos 1) web two_nodes).0 in
      update_mapping first (pos 1) (pos 1) web [] ≡ (first, failed optimistic_conflict))
unfolding update_mapping has_version lookup replace fits replace_row insert_targets delete_targets
    clashes clash pending_target
update_mapping-twice_example =
    update_mapping-twice one_mapping (pos 1) (pos 1) web web two_nodes [] refl

abbrev asked : MappingReq
asked = record {
  local_port = pos 8080;
  proto = "tcp";
  remark = "web";
  enabled = true;
  version = pos 0;
  targets = two_nodes;
}

abbrev anything_listens : ℤ → String → Bool
anything_listens port proto = true

abbrev nobody_answers : ℤ → ℤ → String → Option Bool
nobody_answers node port proto = none

create_mapping-validated_example :
    (let (db', answer) = create_mapping no_tables (mapping_of asked) asked.targets in
      (answer ≡ done (pos 1))
      × (lookup (pos 1) db'.mappings ≡ some (record (mapping_of asked) { version = pos 1 })))
unfolding validate_mapping validate_port check_targets seen_in validate_remote_port reserved_reason
    check_enabled check_occupied taken
create_mapping-validated_example =
    create_mapping-validated anything_listens nobody_answers asked no_tables refl (omega arith)
      no_tables-IsValid (refl, (refl, tt))
