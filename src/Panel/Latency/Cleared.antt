-- ===== src/Panel/Latency/Cleared.antt =====
-- What is left when a node is cleared.
use frp_panel.Prelude.{
  ◌≡◌, refl, sym, ap, ◌∙◌, true, false, ◌&&◌, ◌==◌, none, [], ◌∷◌, ◌++◌, if◌then◌else◌, Bool-cases,
  inl, inr, arith,
}
use frp_panel.Prelude.Int.{ℤ, pos, eqb_ℤ, eqb_ℤ_iff, IsInt64}
use frp_panel.Prelude.Text.{Bytes, bytes_eq, has_prefix, same_bytes, same_bytes_iff}
use frp_panel.Prelude.Decimal.{decimal, parse_int, value_or}
use frp_panel.Prelude.Decimal.ReadBack.{Without, decimal-Without, parse_int-decimal}
use frp_panel.Prelude.Assoc.{Assoc, lookup, int_eq, lookup-erase}
use frp_panel.Panel.Latency.{
  live_key, node_prefix, without_prefix, Latencies, clear_lat_for_node, link_latency, best_of,
  node_latency,
}

decimal-injective : (a b : ℤ) → IsInt64 a → IsInt64 b → decimal a ≡ decimal b → a ≡ b
decimal-injective a b ha hb e =
    let p = sym (parse_int-decimal a ha) ∙ ap (parse_int 10 64) e ∙ parse_int-decimal b hb in
    ap (value_or (pos 0)) p

same_decimal : (a b : ℤ) → IsInt64 a → IsInt64 b → same_bytes (decimal a) (decimal b) ≡ eqb_ℤ a b
same_decimal a b ha hb = elim (Bool-cases (eqb_ℤ a b)) [
  | inl h ↦ rw (h, (eqb_ℤ_iff a b).0 h) ((same_bytes_iff (decimal b) (decimal b)).1 refl)
  | inr h ↦ elim (Bool-cases (same_bytes (decimal a) (decimal b))) [
    | inr k ↦ k ∙ sym h
    | inl k ↦
        let e = decimal-injective a b ha hb ((same_bytes_iff (decimal a) (decimal b)).0 k) in
        let h' = (eqb_ℤ_iff a b).1 e in absurd (cc)
  ]
]

-- Up to their first such byte the texts have to be the same.
has_prefix-cut :
    (c : _) (xs ys zs : Bytes)
    → Without c xs
    → Without c ys
    → has_prefix (xs ++ c ∷ []) (ys ++ c ∷ zs) ≡ same_bytes xs ys
unfolding has_prefix same_bytes
has_prefix-cut c [] [] zs h k = ground arith
has_prefix-cut c [] (y ∷ ys) zs h k = ground arith
has_prefix-cut c (x ∷ xs) [] zs h k = ground arith
has_prefix-cut c (x ∷ xs) (y ∷ ys) zs h k =
    ap (λ b. x == y && b) (has_prefix-cut c xs ys zs h.1 k.1)

node_prefix-live_key :
    (n node port : ℤ)
    → IsInt64 n
    → IsInt64 node
    → has_prefix (node_prefix n) (live_key node port) ≡ eqb_ℤ n node
unfolding node_prefix live_key
node_prefix-live_key n node port hn hnode =
    has_prefix-cut 58 (decimal n) (decimal node) (decimal port) (decimal-Without 58 n (omega arith))
      (decimal-Without 58 node (omega arith))
    ∙ same_decimal n node hn hnode

lookup-without_prefix :
    {V : Type 0} (prefix k : Bytes) (m : Assoc Bytes V)
    → lookup k (without_prefix prefix m) ≡ (if has_prefix prefix k then none else lookup k m)
unfolding lookup without_prefix
lookup-without_prefix prefix k [] = ground arith
lookup-without_prefix prefix k ((j, v) ∷ m) =
    ground (arith, same_bytes_iff j k, lookup-without_prefix prefix k m)

has_prefix-both :
    (c : _) (xs ys k : Bytes)
    → Without c xs
    → Without c ys
    → has_prefix (xs ++ c ∷ []) k ≡ true
    → has_prefix (ys ++ c ∷ []) k ≡ true
    → same_bytes xs ys ≡ true
unfolding has_prefix same_bytes
has_prefix-both c [] [] k h h' p q = refl
has_prefix-both c [] (y ∷ ys) [] h h' p q = cc
has_prefix-both c [] (y ∷ ys) (b ∷ k) h h' p q = absurd (ground arith)
has_prefix-both c (x ∷ xs) [] [] h h' p q = cc
has_prefix-both c (x ∷ xs) [] (b ∷ k) h h' p q = absurd (ground arith)
has_prefix-both c (x ∷ xs) (y ∷ ys) [] h h' p q = cc
has_prefix-both c (x ∷ xs) (y ∷ ys) (b ∷ k) h h' p q =
    ground (arith, has_prefix-both c xs ys k h.1 h'.1)

-- No text has the prefixes of two nodes.
two_nodes :
    (n node : ℤ) (k : Bytes)
    → IsInt64 n
    → IsInt64 node
    → eqb_ℤ n node ≡ false
    → has_prefix (node_prefix n) k ≡ true
    → has_prefix (node_prefix node) k ≡ false
unfolding node_prefix
two_nodes n node k hn hnode ne p = elim (Bool-cases (has_prefix (decimal node ++ 58 ∷ []) k)) [
  | inr q ↦ q
  | inl q ↦
      let same =
        has_prefix-both 58 (decimal n) (decimal node) k (decimal-Without 58 n (omega arith))
          (decimal-Without 58 node (omega arith)) p q in
      let e = same_decimal n node hn hnode in absurd (cc)
]

best_of-skip :
    (p k : Bytes) (v : ℤ) (m : Assoc Bytes ℤ) (best : ℤ)
    → has_prefix p k ≡ false
    → best_of p ((k, v) ∷ m) best ≡ best_of p m best
unfolding best_of
best_of-skip p k v m best h = rw h refl

without_prefix-keep :
    (p k : Bytes) (v : ℤ) (m : Assoc Bytes ℤ)
    → has_prefix p k ≡ false
    → without_prefix p ((k, v) ∷ m) ≡ (k, v) ∷ without_prefix p m
unfolding without_prefix
without_prefix-keep p k v m h = rw h refl

best_of-cleared :
    (p : Bytes) (m : Assoc Bytes ℤ) (best : ℤ) → best_of p (without_prefix p m) best ≡ best
unfolding best_of without_prefix
best_of-cleared p [] best = refl
best_of-cleared p ((k, v) ∷ m) best = elim (Bool-cases (has_prefix p k)) [
  | inl h ↦ rw h (best_of-cleared p m best)
  | inr h ↦
      ap (λ t. best_of p t best) (without_prefix-keep p k v m h)
      ∙ best_of-skip p k v (without_prefix p m) best h
      ∙ best_of-cleared p m best
]

best_of-other :
    (n node : ℤ) (m : Assoc Bytes ℤ) (best : ℤ)
    → IsInt64 n
    → IsInt64 node
    → eqb_ℤ n node ≡ false
    → best_of (node_prefix node) (without_prefix (node_prefix n) m) best
      ≡ best_of (node_prefix node) m best
unfolding best_of without_prefix
best_of-other n node [] best hn hnode ne = refl
best_of-other n node ((k, v) ∷ m) best hn hnode ne =
    elim (Bool-cases (has_prefix (node_prefix n) k)) [
      | inl h ↦ rw (h, two_nodes n node k hn hnode ne h) (best_of-other n node m best hn hnode ne)
      | inr h ↦ rw h (best_of-other n node m _ hn hnode ne)
    ]

-- Clearing a node drops all of its latencies, and none of another node: neither those of links nor
-- the one that stands for the node. Numbers of nodes are of int64.
pub latency-clear :
    (n node port : ℤ) (l : Latencies)
    → IsInt64 n
    → IsInt64 node
    → (link_latency node port (clear_lat_for_node n l)
        ≡ (if eqb_ℤ n node then pos 0 else link_latency node port l))
      × (node_latency node (clear_lat_for_node n l)
          ≡ (if eqb_ℤ n node then pos 0 else node_latency node l))
unfolding link_latency node_latency clear_lat_for_node
latency-clear n node port l hn hnode = elim (Bool-cases (eqb_ℤ n node)) [
  | inl h ↦
      rw
        (
          h,
          lookup-without_prefix (node_prefix n) (live_key node port) l.link_lat,
          node_prefix-live_key n node port hn hnode,
          h,
          lookup-erase n node l.ctrl_lat,
          h,
        )
        (
          refl,
          rw
              (ap
                  (λ x.
                    best_of (node_prefix node) (without_prefix (node_prefix x) l.link_lat) (pos 0))
                  ((eqb_ℤ_iff n node).0 h)
                ∙ best_of-cleared (node_prefix node) l.link_lat (pos 0))
              refl,
        )
  | inr h ↦
      rw
        (
          h,
          lookup-without_prefix (node_prefix n) (live_key node port) l.link_lat,
          node_prefix-live_key n node port hn hnode,
          h,
          lookup-erase n node l.ctrl_lat,
          h,
          best_of-other n node l.link_lat (pos 0) hn hnode h,
        )
        (refl, refl)
]
