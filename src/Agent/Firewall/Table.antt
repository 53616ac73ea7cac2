-- ===== src/Agent/Firewall/Table.antt =====
-- What is read out of the table that `ufw status numbered` prints.
use frp_panel.Prelude.{
  ◌==◌, ◌≡◌, refl, sym, ap, ◌∙◌, false, List, [], ◌∷◌, ◌++◌, map, append_assoc, append-nil,
  if◌then◌else◌, Bool-cases, inl, inr, arith,
}
use frp_panel.Prelude.Text.{Bytes, split, split_from, has_part}
use frp_panel.Prelude.Decimal.ReadBack.{Without}
use frp_panel.Agent.Firewall.RuleLine.{Row, IsRow, row_line, rule_spec-row_line}
use frp_panel.Agent.Firewall.{ufw_comment, managed_in, parse_managed_specs}

-- lines with newlines between them
unfoldable pub join : Bytes → List Bytes → Bytes
join l [] = l
join l (m ∷ ms) = l ++ 10 ∷ join m ms

split_from-Without :
    (l cur rest : Bytes)
    → Without 10 l
    → split_from 10 (l ++ 10 ∷ rest) cur ≡ (cur ++ l) ∷ split_from 10 rest []
unfolding split_from
split_from-Without [] cur rest h = ap (λ c. c ∷ split_from 10 rest []) (sym (append-nil cur))
split_from-Without (b ∷ l) cur rest h = elim (Bool-cases (b == 10)) [
  | inl e ↦ absurd (ground arith)
  | inr e ↦ rw e (
      split_from-Without l (cur ++ b ∷ []) rest h.1
      ∙ ap (λ c. c ∷ split_from 10 rest []) (append_assoc cur (b ∷ []) l))
]

split_from-last : (l cur : Bytes) → Without 10 l → split_from 10 l cur ≡ (cur ++ l) ∷ []
unfolding split_from
split_from-last [] cur h = ap (λ c. c ∷ []) (sym (append-nil cur))
split_from-last (b ∷ l) cur h = elim (Bool-cases (b == 10)) [
  | inl e ↦ absurd (ground arith)
  | inr e ↦
      rw e (split_from-last l (cur ++ b ∷ []) h.1 ∙ ap (λ c. c ∷ []) (append_assoc cur (b ∷ []) l))
]

abbrev pub AllPlain : List Bytes → Type 0
AllPlain [] = Unit {0}
AllPlain (l ∷ ls) = Without 10 l × AllPlain ls

split-join : (l : Bytes) (ls : List Bytes) → AllPlain (l ∷ ls) → split 10 (join l ls) ≡ l ∷ ls
unfolding join
split-join l [] h = split_from-last l [] h.0
split-join l (m ∷ ms) h =
    split_from-Without l [] (join m ms) h.0 ∙ ap (λ r. l ∷ r) (split-join m ms h.1)

-- the specs of the rows that have the comment
unfoldable pub specs : List Row → List Bytes
specs [] = []
specs (r ∷ rs) =
    let rest = specs rs in if has_part ufw_comment (row_line r) then r.spec ∷ rest else rest

abbrev pub AllRows : List Row → Type 0
AllRows [] = Unit {0}
AllRows (r ∷ rs) = IsRow r × AllRows rs

abbrev pub AllUntagged : List Bytes → Type 0
AllUntagged [] = Unit {0}
AllUntagged (l ∷ ls) = (has_part ufw_comment l ≡ false) × AllUntagged ls

managed_in-rows : (rs : List Row) → AllRows rs → managed_in (map row_line rs) ≡ specs rs
unfolding managed_in specs
managed_in-rows [] h = refl
managed_in-rows (r ∷ rs) h = rw (rule_spec-row_line r h.0, managed_in-rows rs h.1) refl

managed_in-head :
    (head rest : List Bytes) → AllUntagged head → managed_in (head ++ rest) ≡ managed_in rest
unfolding managed_in
managed_in-head [] rest h = refl
managed_in-head (l ∷ ls) rest h = rw h.0 (managed_in-head ls rest h.1)

-- Of a table as ufw prints it, some lines and then a row for each rule, the specs of the rows with
-- the agent's comment are read.
pub parse-join :
    (first : Bytes) (head : List Bytes) (rows : List Row)
    → AllUntagged (first ∷ head)
    → AllRows rows
    → AllPlain (first ∷ head ++ map row_line rows)
    → parse_managed_specs (join first (head ++ map row_line rows)) ≡ specs rows
unfolding parse_managed_specs
parse-join first head rows u r p =
    ap managed_in (split-join first (head ++ map row_line rows) p)
    ∙ managed_in-head (first ∷ head) (map row_line rows) u
    ∙ managed_in-rows rows r
