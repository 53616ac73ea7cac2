-- ===== src/Agent/Firewall/Tests.antt =====
-- A host whose ufw can only have the rule for 80/tcp; its state is whether it has it.
use frp_panel.Prelude.{
  ◌≡◌, refl, ap, Bool, true, false, not, ◌&&◌, ◌||◌, List, [], ◌∷◌, map, if◌then◌else◌, Bool-cases,
  inl, inr, arith, none,
}
use frp_panel.Prelude.Int.{pos}
use frp_panel.Prelude.Decimal.{decimal, digits}
use frp_panel.Prelude.Text.{
  Bytes, codes, same_bytes, same_bytes_iff, has_part, has_prefix, split_from, lower,
}
use frp_panel.Protocol.Message.{PortSpec}
use frp_panel.Agent.Firewall.{
  ufw_comment, has_spec, parse_managed_specs, wanted, ufw_rule_spec, ufw_available,
  ufw_managed_specs, ufw_allow, ufw_delete, ufw_sync, sync_specs, add_missing, drop_stale,
  managed_in, sorted_keys, put_sorted, is_udp,
}
use frp_panel.Agent.Firewall.RuleLine.{Row, row_line, IsRow, is_digit, is_blank, rule_spec}
use frp_panel.Agent.Firewall.Table.{join, specs, AllRows, AllPlain, AllUntagged}
use frp_panel.Agent.Firewall.Ufw.{Ufw, is_open, status, numbered}
use frp_panel.Agent.Firewall.Synced.{ufw_sync-converges, ufw_sync-keeps}

abbrev web : Bytes
web = codes "80/tcp"

abbrev web_row : Row
web_row = record {
  pad = codes " ";
  index = codes "1";
  spec = web;
  tail = codes "  ALLOW IN    Anywhere   # frpanel-agent";
}

abbrev rows_of : Bool → List Row
rows_of true = web_row ∷ []
rows_of false = []

same_args : List Bytes → List Bytes → Bool
same_args [] [] = true
same_args [] (b ∷ bs) = false
same_args (a ∷ as') [] = false
same_args (a ∷ as') (b ∷ bs) = same_bytes a b && same_args as' bs

toy_run : List Bytes → Bool → Bool × Bytes × Bool
toy_run args w =
    if same_args args (codes "ufw" ∷ codes "status" ∷ [])
    then (w, codes "Status: active", true)
    else if same_args args (codes "ufw" ∷ codes "status" ∷ codes "numbered" ∷ [])
    then (w, join (codes "Status: active") (map row_line (rows_of w)), true)
    else if same_args args (codes "ufw" ∷ codes "allow" ∷ web ∷ codes "comment" ∷ ufw_comment ∷ [])
    then (true, [], true)
    else if same_args args
        (codes "ufw" ∷ codes "--force" ∷ codes "delete" ∷ codes "allow" ∷ web ∷ [])
    then (false, [], true)
    else (w, [], false)

web-IsRow : IsRow web_row
unfolding is_digit is_blank
web-IsRow = record {
  padded = (refl, tt);
  numbered = (refl, tt);
  some_index = λ e. cc;
  solid_spec = (refl, (refl, (refl, (refl, (refl, (refl, tt))))));
  some_spec = λ e. cc;
}

toy_AllRows : (w : Bool) → AllRows (rows_of w)
toy_AllRows true = (web-IsRow, tt)
toy_AllRows false = tt

toy_plain : (w : Bool) → AllPlain (codes "Status: active" ∷ map row_line (rows_of w))
unfolding row_line
toy_plain true = omega arith
toy_plain false = omega arith

toy_table :
    (w : Bool) → (numbered toy_run w).1 ≡ join (codes "Status: active") (map row_line (rows_of w))
unfolding toy_run same_args same_bytes
toy_table w = refl

toy_allow :
    (s : Bytes) (w : Bool)
    → ufw_allow toy_run s w ≡ (if same_bytes s web then (true, true) else (w, false))
unfolding toy_run same_args same_bytes ufw_allow
toy_allow s w = elim (Bool-cases (same_bytes s web)) [ inl h ↦ rw h refl | inr h ↦ rw h refl ]

toy_delete :
    (s : Bytes) (w : Bool)
    → ufw_delete toy_run s w ≡ (if same_bytes s web then (false, true) else (w, false))
unfolding toy_run same_args same_bytes ufw_delete
toy_delete s w = elim (Bool-cases (same_bytes s web)) [ inl h ↦ rw h refl | inr h ↦ rw h refl ]

has_web : (t : Bytes) (w : Bool) → has_spec t (specs (rows_of w)) ≡ (w && same_bytes web t)
unfolding specs has_spec row_line has_part has_prefix
has_web t true = ground arith
has_web t false = refl

toy_allow_ok :
    (s : Bytes) (w : Bool)
    → (ufw_allow toy_run s w).1 ≡ true
    → (t : Bytes)
    → has_spec t (specs (rows_of (ufw_allow toy_run s w).0))
      ≡ (same_bytes s t || has_spec t (specs (rows_of w)))
toy_allow_ok s w h t = elim (Bool-cases (same_bytes s web)) [
  | inl e ↦
      rw (toy_allow s w, e, (same_bytes_iff s web).0 e, has_web t true, has_web t w) (ground arith)
  | inr e ↦ let h' = rw (toy_allow s w, e) at h in absurd (cc)
]

toy_delete_ok :
    (s : Bytes) (w : Bool)
    → (ufw_delete toy_run s w).1 ≡ true
    → (t : Bytes)
    → has_spec t (specs (rows_of (ufw_delete toy_run s w).0))
      ≡ (not (same_bytes s t) && has_spec t (specs (rows_of w)))
toy_delete_ok s w h t = elim (Bool-cases (same_bytes s web)) [
  | inl e ↦
      rw (toy_delete s w, e, (same_bytes_iff s web).0 e, has_web t false, has_web t w)
        (ground arith)
  | inr e ↦ let h' = rw (toy_delete s w, e) at h in absurd (cc)
]

toy_allow_failed :
    (s : Bytes) (w : Bool)
    → (ufw_allow toy_run s w).1 ≡ false
    → rows_of (ufw_allow toy_run s w).0 ≡ rows_of w
toy_allow_failed s w h = elim (Bool-cases (same_bytes s web)) [
  | inl e ↦ let h' = rw (toy_allow s w, e) at h in absurd (cc)
  | inr e ↦ rw (toy_allow s w, e) refl
]

toy_delete_failed :
    (s : Bytes) (w : Bool)
    → (ufw_delete toy_run s w).1 ≡ false
    → rows_of (ufw_delete toy_run s w).0 ≡ rows_of w
toy_delete_failed s w h = elim (Bool-cases (same_bytes s web)) [
  | inl e ↦ let h' = rw (toy_delete s w, e) at h in absurd (cc)
  | inr e ↦ rw (toy_delete s w, e) refl
]

status_state : (w : Bool) → (status toy_run w).0 ≡ w
unfolding toy_run same_args same_bytes
status_state w = refl

numbered_state : (w : Bool) → (numbered toy_run w).0 ≡ w
unfolding toy_run same_args same_bytes
numbered_state w = refl

untagged_head : AllUntagged (codes "Status: active" ∷ [])
unfolding has_part has_prefix
untagged_head = (refl, tt)

abbrev toy_ufw : Ufw toy_run
toy_ufw = record {
  rows = rows_of;
  first = codes "Status: active";
  head = [];
  untagged = untagged_head;
  rows_AllRows = toy_AllRows;
  plain = toy_plain;
  table = λ w h. toy_table w;
  status_keeps = λ w. ap rows_of (status_state w);
  numbered_keeps = λ w. ap rows_of (numbered_state w);
  allow_ok = toy_allow_ok;
  allow_failed = toy_allow_failed;
  delete_ok = toy_delete_ok;
  delete_failed = toy_delete_failed;
}

abbrev web_port : List PortSpec
web_port = record { port = pos 80; proto = codes "tcp" } ∷ []

is_available : (w : Bool) → (ufw_available toy_run w).1 ≡ true
unfolding ufw_available toy_run same_args same_bytes has_part has_prefix
is_available w = refl

no_failure : (ufw_sync toy_run web_port false).1 ≡ none
unfolding ufw_sync ufw_available ufw_managed_specs toy_run same_args same_bytes has_part has_prefix
    sync_specs add_missing drop_stale ufw_allow ufw_delete parse_managed_specs split_from managed_in
    sorted_keys put_sorted wanted ufw_rule_spec is_udp decimal digits has_spec join lower rule_spec
no_failure = refl

ufw_sync-converges_example :
    is_open toy_run toy_ufw web (ufw_sync toy_run web_port false).0 ≡ has_spec web (wanted web_port)
ufw_sync-converges_example =
    ufw_sync-converges toy_run toy_ufw web web_port false (is_available false) no_failure

is_open_now : is_open toy_run toy_ufw web true ≡ true
unfolding same_bytes
is_open_now = has_web web true

is_wanted : has_spec web (wanted web_port) ≡ true
unfolding wanted ufw_rule_spec is_udp decimal digits has_spec has_prefix lower same_bytes
is_wanted = refl

ufw_sync-keeps_example : is_open toy_run toy_ufw web (ufw_sync toy_run web_port true).0 ≡ true
ufw_sync-keeps_example = ufw_sync-keeps toy_run toy_ufw web web_port true is_open_now is_wanted
