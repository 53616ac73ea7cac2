-- ===== src/Agent/Firewall.antt =====
-- internal/agent/firewall.go and internal/agent/nftlimit.go: the rules of ufw and the table of nftables
-- for the ports of the mappings. A command that is run changes a state of the host, which is a
-- parameter with the function that runs it. Texts are bytes; a set of specs is a list.
pub mod RuleLine
pub mod Table
pub mod Ufw
pub mod Opened
pub mod Closed
pub mod Synced
mod Tests
use frp_panel.Prelude.{
  ◌+◌, ◌==◌, Bool, true, false, ◌&&◌, ◌||◌, Option, none, some, List, [], ◌∷◌, ◌++◌, if◌then◌else◌,
  ltb, ℕ,
}
use frp_panel.Prelude.Int.{ℤ, pos, leb_ℤ, ◌+ℤ◌}
use frp_panel.Prelude.Text.{Bytes, bytes_eq, codes, split, has_part, has_prefix, lower, same_bytes}
use frp_panel.Prelude.Decimal.{decimal}
use frp_panel.Protocol.Message.{PortSpec, SetRateLimit}
use frp_panel.Agent.Firewall.RuleLine.{rule_spec}

abbrev pub ufw_comment : Bytes
ufw_comment = codes "frpanel-agent"

unfoldable pub is_udp : Bytes → Bool
is_udp proto = has_prefix (codes "udp") (lower proto)

unfoldable pub ufw_rule_spec : ℤ → Bytes → Bytes
ufw_rule_spec port proto = decimal port ++ 47 ∷ (if is_udp proto then codes "udp" else codes "tcp")

unfoldable pub has_spec : Bytes → List Bytes → Bool
has_spec s [] = false
has_spec s (t ∷ ts) = same_bytes t s || has_spec s ts

abbrev pub add_found : Option Bytes → List Bytes → List Bytes
add_found none specs = specs
add_found (some s) specs = s ∷ specs

unfoldable pub managed_in : List Bytes → List Bytes
managed_in [] = []
managed_in (line ∷ lines) =
    let rest = managed_in lines in
    if has_part ufw_comment line then add_found (rule_spec line) rest else rest

unfoldable pub parse_managed_specs : Bytes → List Bytes
parse_managed_specs out = managed_in (split 10 out)

-- the order of the bytes
unfoldable pub leb_bytes : Bytes → Bytes → Bool
leb_bytes [] cs = true
leb_bytes (b ∷ bs) [] = false
leb_bytes (b ∷ bs) (c ∷ cs) = ltb b c || (b == c && leb_bytes bs cs)

-- a text that is there already is not put in again
unfoldable pub put_sorted : Bytes → List Bytes → List Bytes
put_sorted s [] = s ∷ []
put_sorted s (t ∷ ts) =
    let rest = put_sorted s ts in
    if same_bytes t s then t ∷ ts else if leb_bytes s t then s ∷ t ∷ ts else t ∷ rest

-- `sortedKeys`
unfoldable pub sorted_keys : List Bytes → List Bytes
sorted_keys [] = []
sorted_keys (s ∷ ss) = put_sorted s (sorted_keys ss)

unfoldable pub wanted : List PortSpec → List Bytes
wanted [] = []
wanted (p ∷ ps) = ufw_rule_spec p.port p.proto ∷ wanted ps

-- the first command that failed
pub data UfwError : Type 0 where
  status_failed : UfwError
  allow_failed delete_failed : Bytes → UfwError

abbrev pub or_first : Option UfwError → UfwError → Option UfwError
or_first none e = some e
or_first (some f) e = some f

-- the ways in which a limit is not applied as it should be
pub data LimitError : Type 0 where
  ufw_error : UfwError → LimitError
  nft_error : LimitError
  both_errors : UfwError → LimitError

abbrev pub ufw_part : Option UfwError → Option LimitError
ufw_part none = none
ufw_part (some e) = some (ufw_error e)

abbrev pub with_nft : Option UfwError → LimitError
with_nft none = nft_error
with_nft (some e) = both_errors e

unfoldable pub limit_line : ℤ → PortSpec → Bytes
limit_line rate p =
    if is_udp p.proto
    then codes "    udp dport "
      ++ decimal p.port
      ++ codes " limit rate over "
      ++ decimal rate
      ++ codes "/second burst "
      ++ decimal rate
      ++ codes " packets counter drop"
      ++ 10 ∷ []
    else codes "    tcp dport "
      ++ decimal p.port
      ++ codes " ct state new limit rate over "
      ++ decimal rate
      ++ codes "/second burst "
      ++ decimal rate
      ++ codes " packets counter drop"
      ++ 10 ∷ []

unfoldable pub limit_lines : ℤ → List PortSpec → Bytes
limit_lines rate [] = []
limit_lines rate (p ∷ ps) = limit_line rate p ++ limit_lines rate ps

unfoldable pub limit_table : SetRateLimit → Bytes
limit_table rl =
    codes "table inet frpanel {"
    ++ 10 ∷ codes "  chain input {"
    ++ 10 ∷ codes "    type filter hook input priority -10; policy accept;"
    ++ 10 ∷ limit_lines rl.rate rl.ports
    ++ codes "  }"
    ++ 10 ∷ codes "}"
    ++ 10 ∷ []

unfoldable pub applied_to : List PortSpec → ℤ
applied_to [] = pos 0
applied_to (p ∷ ps) = pos 1 +ℤ applied_to ps

-- `run` takes the command and its arguments and gives the output and whether it succeeded; `nft`
-- takes the arguments and the input.
module _ {W : Type 0} (run : List Bytes → W → W × Bytes × Bool) where
  unfoldable pub ufw_available : W → W × Bool
  ufw_available w =
      let (w', out, ok) = run (codes "ufw" ∷ codes "status" ∷ []) w in
      (w', ok && has_part (codes "Status: active") out)

  unfoldable pub ufw_managed_specs : W → W × Option (List Bytes)
  ufw_managed_specs w =
      let (w', out, ok) = run (codes "ufw" ∷ codes "status" ∷ codes "numbered" ∷ []) w in
      (w', if ok then some (parse_managed_specs out) else none)

  unfoldable pub ufw_allow : Bytes → W → W × Bool
  ufw_allow spec w =
      let (w', out, ok) =
        run (codes "ufw" ∷ codes "allow" ∷ spec ∷ codes "comment" ∷ ufw_comment ∷ []) w in
      (w', ok)

  unfoldable pub ufw_delete : Bytes → W → W × Bool
  ufw_delete spec w =
      let (w', out, ok) =
        run (codes "ufw" ∷ codes "--force" ∷ codes "delete" ∷ codes "allow" ∷ spec ∷ []) w in
      (w', ok)

  unfoldable pub delete_all : List Bytes → W → Option UfwError → W × Option UfwError
  delete_all [] w first = (w, first)
  delete_all (s ∷ ss) w first =
      delete_all ss (ufw_delete s w).0
        (if (ufw_delete s w).1 then first else or_first first (UfwError.delete_failed s))

  unfoldable pub remove_specs : W → Option (List Bytes) → W × Option UfwError
  remove_specs w none = (w, some UfwError.status_failed)
  remove_specs w (some specs) = delete_all (sorted_keys specs) w none

  unfoldable pub ufw_remove_managed_rules : W → W × Option UfwError
  ufw_remove_managed_rules w = let (w', have) = ufw_managed_specs w in remove_specs w' have

  -- opens what is missing
  unfoldable pub add_missing : List Bytes → List Bytes → W → Option UfwError → W × Option UfwError
  add_missing have [] w first = (w, first)
  add_missing have (s ∷ ss) w first = elim (has_spec s have) [
    | true ↦ add_missing have ss w first
    | false ↦
        add_missing have ss (ufw_allow s w).0
          (if (ufw_allow s w).1 then first else or_first first (UfwError.allow_failed s))
  ]

  -- drops what is no longer needed
  unfoldable pub drop_stale : List Bytes → List Bytes → W → Option UfwError → W × Option UfwError
  drop_stale want [] w first = (w, first)
  drop_stale want (s ∷ ss) w first = elim (has_spec s want) [
    | true ↦ drop_stale want ss w first
    | false ↦
        drop_stale want ss (ufw_delete s w).0
          (if (ufw_delete s w).1 then first else or_first first (UfwError.delete_failed s))
  ]

  unfoldable pub sync_specs : List Bytes → W → Option (List Bytes) → W × Option UfwError
  sync_specs want w none = (w, some UfwError.status_failed)
  sync_specs want w (some have) =
      let (w', first) = add_missing have (sorted_keys want) w none in
      drop_stale want (sorted_keys have) w' first

  unfoldable pub ufw_sync : List PortSpec → W → W × Option UfwError
  ufw_sync ports w =
      let (w', available) = ufw_available w in
      let (w'', have) = ufw_managed_specs w' in
      if available then sync_specs (wanted ports) w'' have else (w', none)

  module _ (nft : List Bytes → Bytes → W → W × Bool) where
    abbrev delete_table : W → W
    delete_table w =
        (nft (codes "delete" ∷ codes "table" ∷ codes "inet" ∷ codes "frpanel" ∷ []) [] w).0

    unfoldable pub program_table : SetRateLimit → Option UfwError → W → W × ℤ × Option LimitError
    program_table rl ufw_err w =
        let (w', ok) = nft (codes "-f" ∷ codes "-" ∷ []) (limit_table rl) w in
        if ok
        then (w', applied_to rl.ports, ufw_part ufw_err)
        else (w', pos 0, some (with_nft ufw_err))

    abbrev is_empty : List PortSpec → Bool
    is_empty [] = true
    is_empty (p ∷ ps) = false

    unfoldable pub apply_rate_limit : SetRateLimit → W → W × ℤ × Option LimitError
    apply_rate_limit rl w =
        let (w', ufw_err) = ufw_sync rl.ports (delete_table w) in
        if leb_ℤ rl.rate (pos 0) || is_empty rl.ports
        then (w', pos 0, ufw_part ufw_err)
        else program_table rl ufw_err w'

    unfoldable pub remove_rate_limit : W → W
    remove_rate_limit w = (ufw_remove_managed_rules (delete_table w)).0
