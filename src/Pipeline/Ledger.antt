-- ===== src/Pipeline/Ledger.antt =====
-- The traffic of a node, written and not yet written, and how the pieces of `account` and `flush`
-- change it.
use Prim.Native.String.{String}
use frp_panel.Prelude.{
  ◌≡◌, ◌⊎◌, refl, ap, ◌∙◌, none, some, List, [], ◌∷◌, arith, if◌then◌else◌, Bool-cases,
  Option-cases, inl, inr,
}
use frp_panel.Prelude.Int.{ℤ, pos, ◌+ℤ◌, ◌+64◌, wrap64, eqb_ℤ, int_laws, parts}
use frp_panel.Prelude.Assoc.{Assoc, lookup, insert, int_eq, string_eq, pair_eq}
use frp_panel.Prelude.Sum.{
  sum_of, sum_of-insert_new, sum_of-insert_old, wrap64-settle, wrap64-replace, wrap64-+64_zero,
}
use frp_panel.Metrics.Float.{Floats}
use frp_panel.Pipeline.State.{DayTraffic, NodeState, Pipeline}
use frp_panel.Pipeline.Account.{add_day, add_traffic, no_traffic}
use frp_panel.Pipeline.Flush.{Db, TrafficRow, incr_traffic_daily, add_row}

-- the four counters
pub data Scope : Type 0 where
  node_rx node_tx tun_in tun_out : Scope

unfoldable pub bytes : Scope → DayTraffic → ℤ
bytes node_rx d = d.node_rx
bytes node_tx d = d.node_tx
bytes tun_in d = d.tun_in
bytes tun_out d = d.tun_out

pub bytes-add_traffic :
    (c : Scope) (d x : DayTraffic) → bytes c (add_traffic d x) ≡ bytes c d +64 bytes c x
unfolding bytes add_traffic
bytes-add_traffic node_rx d x = refl
bytes-add_traffic node_tx d x = refl
bytes-add_traffic tun_in d x = refl
bytes-add_traffic tun_out d x = refl

bytes-add_row : (c : Scope) (d x : DayTraffic) → bytes c (add_row d x) ≡ bytes c d +ℤ bytes c x
unfolding bytes add_row
bytes-add_row node_rx d x = refl
bytes-add_row node_tx d x = refl
bytes-add_row tun_in d x = refl
bytes-add_row tun_out d x = refl

bytes-no_traffic : (c : Scope) → bytes c no_traffic ≡ pos 0
unfolding bytes no_traffic
bytes-no_traffic node_rx = refl
bytes-no_traffic node_tx = refl
bytes-no_traffic tun_in = refl
bytes-no_traffic tun_out = refl

from_none :
    (c : Scope) (x : DayTraffic) → bytes c (add_traffic no_traffic x) ≡ wrap64 (pos 0 +ℤ bytes c x)
unfolding ◌+64◌
from_none c x =
    bytes-add_traffic c no_traffic x ∙ ap (λ t. wrap64 (t +ℤ bytes c x)) (bytes-no_traffic c)

-- The weights of the sums below.
abbrev pub if_node : ℤ → ℤ → ℤ → ℤ
if_node node n a = if eqb_ℤ n node then a else pos 0

pub if_node-+ℤ : (n k a b : ℤ) → if_node n k (a +ℤ b) ≡ if_node n k a +ℤ if_node n k b
if_node-+ℤ n k a b = elim (Bool-cases (eqb_ℤ k n)) [
  | inl h ↦ rw h refl
  | inr h ↦ rw h (omega int_laws)
]

pub if_node-zero : (n k : ℤ) → if_node n k (pos 0) ≡ pos 0
if_node-zero n k = ground arith

module _ (c : Scope) where
  -- what a node has buffered, over its days
  unfoldable pub buffered : Assoc String DayTraffic → ℤ
  buffered = sum_of (λ day d. bytes c d)

  abbrev pub weight : ℤ → ℤ × String → DayTraffic → ℤ
  weight node k d = if_node node k.0 (bytes c d)

  if_node-bytes :
      (node n : ℤ) (d x : DayTraffic)
      → if_node node n (bytes c (add_row d x))
        ≡ if_node node n (bytes c d) +ℤ if_node node n (bytes c x)
  if_node-bytes node n d x =
      ap (if_node node n) (bytes-add_row c d x) ∙ if_node-+ℤ node n (bytes c d) (bytes c x)

  -- what the table holds of a node
  unfoldable pub durable : ℤ → Assoc (ℤ × String) DayTraffic → ℤ
  durable node = sum_of (weight node)

  unfoldable pub rows_total : ℤ → List TrafficRow → ℤ
  rows_total node [] = pos 0
  rows_total node (t ∷ ts) = if_node node t.node_id (bytes c t.d) +ℤ rows_total node ts

  -- what the pipeline holds of a node
  unfoldable pub pending : (F : Floats) → ℤ → Assoc ℤ (NodeState F) → ℤ
  pending F node = sum_of (λ n s. if_node node n (buffered s.traf))

  -- the traffic of a node as an int64: written or held
  unfoldable pub ledger : (F : Floats) → ℤ → Db F → Pipeline F → ℤ
  ledger F node db p = wrap64 (durable node db.traffic +ℤ pending F node p.st)

  pub durable-incr :
      (node : ℤ) (rows : Assoc (ℤ × String) DayTraffic) (t : TrafficRow)
      → durable node (incr_traffic_daily rows t)
        ≡ durable node rows +ℤ if_node node t.node_id (bytes c t.d)
  unfolding durable incr_traffic_daily
  durable-incr node rows t = elim (Option-cases (lookup (t.node_id, t.day) rows)) [
    | inl h ↦ rw (h, incr_traffic_daily) (sum_of-insert_new _ (t.node_id, t.day) t.d rows h)
    | inr (old, h) ↦
        rw (h, incr_traffic_daily)
          (omega (
            int_laws,
            parts (sum_of-insert_old (weight node) (t.node_id, t.day) (add_row old t.d) old rows h),
            parts (if_node-bytes node t.node_id old t.d),
          ))
  ]

  buffered-add_day :
      (day : String) (x : DayTraffic) (traf : Assoc String DayTraffic) (a : ℤ)
      → wrap64 (a +ℤ buffered (add_day day x traf)) ≡ wrap64 (a +ℤ buffered traf) +64 bytes c x
  unfolding buffered add_day ◌+64◌
  buffered-add_day day x traf a = elim (Option-cases (lookup day traf)) [
    | inl h ↦
        rw (h, add_day)
          (wrap64-settle a _ _ (bytes c no_traffic) (bytes c x) (
            rw (bytes-no_traffic c) (
              omega (
                int_laws,
                parts
                    (sum_of-insert_new (λ day d. bytes c d) day (add_traffic no_traffic x) traf h),
                parts (from_none c x),
              ))))
    | inr (old, h) ↦
        rw (h, add_day)
          (wrap64-settle a _ _ (bytes c old) (bytes c x) (
            sum_of-insert_old (λ day d. bytes c d) day (add_traffic old x) old traf h
            ∙ ap (λ t. buffered traf +ℤ t) (bytes-add_traffic c old x)))
  ]

  if_node_empty :
      (n node : ℤ) (traf : Assoc String DayTraffic)
      → traf ≡ []
      → if_node n node (buffered traf) ≡ pos 0
  unfolding buffered sum_of
  if_node_empty n node traf e = rw e (if_node-zero n node)

  if_node-step :
      (n node : ℤ) (traf traf' : Assoc String DayTraffic) (day : String) (x : DayTraffic)
      → traf' ≡ add_day day x traf
      → (z : ℤ)
      → wrap64 (z +ℤ if_node n node (buffered traf'))
        ≡ wrap64 (z +ℤ if_node n node (buffered traf)) +64 if_node n node (bytes c x)
  if_node-step n node traf traf' day x e z = elim (Bool-cases (eqb_ℤ node n)) [
    | inl h ↦ rw (h, e) (buffered-add_day day x traf z)
    | inr h ↦ rw h (wrap64-+64_zero (z +ℤ pos 0))
  ]

  -- a new sample in the state of `node`
  pub pending-insert :
      (F : Floats) (n node a : ℤ) (day : String) (x : DayTraffic) (st : Assoc ℤ (NodeState F))
      (s s' : NodeState F)
      → s'.traf ≡ add_day day x s.traf
      → (lookup node st ≡ some s) ⊎ ((lookup node st ≡ none) × (s.traf ≡ []))
      → wrap64 (a +ℤ pending F n (insert node s' st))
        ≡ wrap64 (a +ℤ pending F n st) +64 if_node n node (bytes c x)
  unfolding pending
  pending-insert F n node a day x st s s' e (inl h) =
      wrap64-replace a _ _ (if_node n node (buffered s.traf)) (if_node n node (buffered s'.traf)) _
        (sum_of-insert_old (λ k s. if_node n k (buffered s.traf)) node s' s st h)
        (if_node-step n node s.traf s'.traf day x e)
  pending-insert F n node a day x st s s' e (inr (h, none_yet)) =
      wrap64-replace a _ _ (if_node n node (buffered s.traf)) (if_node n node (buffered s'.traf)) _
        (omega (
          int_laws,
          parts (sum_of-insert_new (λ k s. if_node n k (buffered s.traf)) node s' st h),
          parts (if_node_empty n node s.traf none_yet),
        ))
        (if_node-step n node s.traf s'.traf day x e)

  -- a state with the same buffers
  pub pending-insert_same :
      (F : Floats) (n node : ℤ) (st : Assoc ℤ (NodeState F)) (s s' : NodeState F)
      → s'.traf ≡ s.traf
      → (lookup node st ≡ some s) ⊎ ((lookup node st ≡ none) × (s.traf ≡ []))
      → pending F n (insert node s' st) ≡ pending F n st
  unfolding pending
  pending-insert_same F n node st s s' e (inl h) = omega (
    int_laws,
    parts (sum_of-insert_old (λ k s. if_node n k (buffered s.traf)) node s' s st h),
    parts (ap (λ t. if_node n node (buffered t)) e),
  )
  pending-insert_same F n node st s s' e (inr (h, none_yet)) = omega (
    int_laws,
    parts (sum_of-insert_new (λ k s. if_node n k (buffered s.traf)) node s' st h),
    parts (if_node_empty n node s'.traf (e ∙ none_yet)),
  )
