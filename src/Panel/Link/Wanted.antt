-- ===== src/Panel/Link/Wanted.antt =====
-- The proxies that a node should have, by the rows of the tables, and those of `desiredProxies`.
use mathlib.Core.List.{Memᴰ}
use mathlib.Core.List.Memᴰ.{head, tail, not-nil}
use frp_panel.Prelude.{
  ◌≡◌, ◌↔◌, refl, sym, ap, ◌∙◌, true, some, List, [], ◌∷◌, Bool-cases, Option-cases, inl, inr,
}
use frp_panel.Prelude.Int.{ℤ, leb_ℤ, eqb_ℤ, eqb_ℤ_iff}
use frp_panel.Prelude.Assoc.{lookup, int_eq}
use frp_panel.Mappings.Store.{Tables, Mapping, MappingTarget}
use frp_panel.Frpcfg.Names.{proxy_name}
use frp_panel.Panel.Link.{
  NodeProxyRow, Proxy, put_row, by_mapping, joined, enabled_proxies_for_node, proxy_of,
  desired_proxies,
}

-- the proxy of a target and its mapping
abbrev pub proxy_for : MappingTarget → Mapping → Proxy
proxy_for t m = record {
  name = proxy_name t.mapping_id t.node_id;
  typ = m.proto;
  local_port = m.local_port;
  remote_port = t.remote_port;
  comment = m.remark;
}

-- The proxy is that of a target of the node, among some targets, whose mapping is enabled.
pub record IsWantedOf (node : ℤ) (db : Tables) (ts : List MappingTarget) (x : Proxy) : Type 0 where
  pub target : MappingTarget
  pub mapping : Mapping
  pub there : Memᴰ target ts
  pub of_node : target.node_id ≡ node
  pub found : lookup target.mapping_id db.mappings ≡ some mapping
  pub is_enabled : mapping.enabled ≡ true
  pub made : x ≡ proxy_for target mapping

abbrev pub IsWanted : ℤ → Tables → Proxy → Type 0
IsWanted node db x = IsWantedOf node db db.targets x

module _ {A : Type 0} {x : A} where
  mem_cons : {a : A} {xs ys : List A} → (Memᴰ x xs → Memᴰ x ys) → Memᴰ x (a ∷ xs) → Memᴰ x (a ∷ ys)
  mem_cons f (head e) = head e
  mem_cons f (tail m) = tail (f m)

  mem_swap : {a b : A} {xs : List A} → Memᴰ x (a ∷ b ∷ xs) → Memᴰ x (b ∷ a ∷ xs)
  mem_swap (head e) = tail (head e)
  mem_swap (tail (head e)) = head e
  mem_swap (tail (tail m)) = tail (tail m)

module _ (x : Proxy) where
  -- A row that is put in its place is there, and the others stay.
  mem-put_row :
      (r : NodeProxyRow) (rs : List NodeProxyRow)
      → Memᴰ x (desired_proxies (put_row r rs)) ↔ Memᴰ x (proxy_of r ∷ desired_proxies rs)
  unfolding put_row desired_proxies
  mem-put_row r [] = (λ m. m, λ m. m)
  mem-put_row r (s ∷ ss) = elim (Bool-cases (leb_ℤ r.mapping_id s.mapping_id)) [
    | inl first ↦ rw first (λ m. m, λ m. m)
    | inr later ↦ rw later (
      λ m. mem_swap (mem_cons (mem-put_row r ss).0 m),
      λ m. mem_cons (mem-put_row r ss).1 (mem_swap m),
    )
  ]

  mem-by_mapping :
      (rs : List NodeProxyRow)
      → Memᴰ x (desired_proxies (by_mapping rs)) ↔ Memᴰ x (desired_proxies rs)
  unfolding by_mapping desired_proxies
  mem-by_mapping [] = (λ m. m, λ m. m)
  mem-by_mapping (r ∷ rs) = (
    λ m. mem_cons (mem-by_mapping rs).0 ((mem-put_row r (by_mapping rs)).0 m),
    λ m. (mem-put_row r (by_mapping rs)).1 (mem_cons (mem-by_mapping rs).1 m),
  )

  module _ (node : ℤ) (db : Tables) where
    later_target :
        (t : MappingTarget) (ts : List MappingTarget)
        → IsWantedOf node db ts x
        → IsWantedOf node db (t ∷ ts) x
    later_target t ts w = record {
      target = w.target;
      mapping = w.mapping;
      there = tail w.there;
      of_node = w.of_node;
      found = w.found;
      is_enabled = w.is_enabled;
      made = w.made;
    }

    -- what a target adds to the rows
    mem-joined_cons :
        (t : MappingTarget) (ts : List MappingTarget)
        → (Memᴰ x (desired_proxies (joined node db ts)) → IsWantedOf node db ts x)
        → Memᴰ x (desired_proxies (joined node db (t ∷ ts)))
        → IsWantedOf node db (t ∷ ts) x
    unfolding joined desired_proxies proxy_of
    mem-joined_cons t ts rest m = elim (Bool-cases (eqb_ℤ t.node_id node)) [
      | inr other ↦ later_target t ts (rest (rw other at m))
      | inl same ↦ elim (Option-cases (lookup t.mapping_id db.mappings)) [
        | inl e ↦ later_target t ts (rest (rw (same, e) at m))
        | inr (mapping, e) ↦ elim (Bool-cases mapping.enabled) [
          | inr off ↦ later_target t ts (rest (rw (same, e, off) at m))
          | inl on ↦ either mapping e on ((eqb_ℤ_iff t.node_id node).0 same) (rw (same, e, on) at m)
        ]
      ]
    ]
      where
        either :
            (mapping : Mapping)
            → lookup t.mapping_id db.mappings ≡ some mapping
            → mapping.enabled ≡ true
            → t.node_id ≡ node
            → Memᴰ x (proxy_for t mapping ∷ desired_proxies (joined node db ts))
            → IsWantedOf node db (t ∷ ts) x
        either mapping e on same (head made) = record {
          target = t;
          mapping = mapping;
          there = head refl;
          of_node = same;
          found = e;
          is_enabled = on;
          made = made;
        }
        either mapping e on same (tail m) = later_target t ts (rest m)

    joined-wanted :
        (ts : List MappingTarget)
        → Memᴰ x (desired_proxies (joined node db ts))
        → IsWantedOf node db ts x
    unfolding joined desired_proxies
    joined-wanted [] m = absurd (not-nil m)
    joined-wanted (t ∷ ts) m = mem-joined_cons t ts (joined-wanted ts) m

    joined_first :
        (t : MappingTarget) (ts : List MappingTarget) (mapping : Mapping)
        → t.node_id ≡ node
        → lookup t.mapping_id db.mappings ≡ some mapping
        → mapping.enabled ≡ true
        → x ≡ proxy_for t mapping
        → Memᴰ x (desired_proxies (joined node db (t ∷ ts)))
    unfolding joined desired_proxies proxy_of
    joined_first t ts mapping n e on made = rw ((eqb_ℤ_iff t.node_id node).1 n, e, on) (head made)

    joined_rest :
        (t : MappingTarget) (ts : List MappingTarget)
        → Memᴰ x (desired_proxies (joined node db ts))
        → Memᴰ x (desired_proxies (joined node db (t ∷ ts)))
    unfolding joined desired_proxies
    joined_rest t ts m = elim (Bool-cases (eqb_ℤ t.node_id node)) [
      | inr other ↦ rw other m
      | inl same ↦ elim (Option-cases (lookup t.mapping_id db.mappings)) [
        | inl e ↦ rw (same, e) m
        | inr (mapping, e) ↦ elim (Bool-cases mapping.enabled) [
          | inl on ↦ rw (same, e, on) (tail m)
          | inr off ↦ rw (same, e, off) m
        ]
      ]
    ]

    wanted-joined :
        (ts : List MappingTarget) (target : MappingTarget) (mapping : Mapping)
        → Memᴰ target ts
        → target.node_id ≡ node
        → lookup target.mapping_id db.mappings ≡ some mapping
        → mapping.enabled ≡ true
        → x ≡ proxy_for target mapping
        → Memᴰ x (desired_proxies (joined node db ts))
    wanted-joined [] target mapping m n f on made = absurd (not-nil m)
    wanted-joined (t ∷ ts) target mapping (head e) n f on made =
        joined_first t ts mapping (sym (ap (λ (u : MappingTarget). u.node_id) e) ∙ n)
          (sym (ap (λ (u : MappingTarget). lookup u.mapping_id db.mappings) e) ∙ f) on
          (made ∙ ap (λ u. proxy_for u mapping) e)
    wanted-joined (t ∷ ts) target mapping (tail m) n f on made =
        joined_rest t ts (wanted-joined ts target mapping m n f on made)

    -- `desiredProxies` has the proxies that the node should have.
    pub mem-desired_proxies :
        Memᴰ x (desired_proxies (enabled_proxies_for_node node db)) ↔ IsWanted node db x
    unfolding enabled_proxies_for_node
    mem-desired_proxies = (
      λ m. joined-wanted db.targets ((mem-by_mapping (joined node db db.targets)).0 m),
      λ w. (mem-by_mapping (joined node db db.targets)).1 (
          wanted-joined db.targets w.target w.mapping w.there w.of_node w.found w.is_enabled
            w.made),
    )
