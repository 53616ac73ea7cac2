-- ===== src/Panel/Link/Reconciled.antt =====
-- What a reconciliation logs.
use frp_panel.Prelude.{
  ◌≡◌, refl, ap, ap₂, subst, ◌∙◌, Bool, true, false, not, ◌&&◌, ◌||◌, some, List, [], ◌∷◌,
  Bool-cases, inl, inr, arith,
}
use frp_panel.Prelude.Text.{Bytes, same_bytes, same_bytes_iff}
use frp_panel.Protocol.Message.{ProxyInfo, PortSpec}
use frp_panel.Prelude.Int.{ℤ, IsInt64}
use frp_panel.Frpcfg.Names.{proxy_name, parse_proxy_name, parse-proxy_name}
use frp_panel.Panel.Link.{
  NodeProxyRow, Proxy, proxy_of, desired_proxies, port_specs, has_name, put_name, desired_names,
  is_ours, registered_names, not_in, reconcile,
}

has_name-put_name :
    (t n : Bytes) (ns : List Bytes) → has_name t (put_name n ns) ≡ (same_bytes n t || has_name t ns)
unfolding has_name put_name
has_name-put_name t n ns = elim (Bool-cases (has_name n ns)) [
  | inl old ↦ rw old (elim (Bool-cases (same_bytes n t)) [
    | inl same ↦ rw same (subst (λ m. has_name m ns ≡ true) ((same_bytes_iff n t).0 same) old)
    | inr other ↦ rw other refl
  ])
  | inr new ↦ rw new refl
]

has_name-not_in :
    (t : Bytes) (ns ms : List Bytes)
    → has_name t (not_in ns ms) ≡ (has_name t ms && not (has_name t ns))
unfolding has_name not_in
has_name-not_in t ns [] = refl
has_name-not_in t ns (m ∷ ms) = elim (Bool-cases (same_bytes m t)) [
  | inl same ↦
      let e = (same_bytes_iff m t).0 same in
      rw e (ground (arith, same_bytes_iff t t, has_name-not_in t ns ms))
  | inr other ↦ ground (arith, other, has_name-not_in t ns ms)
]

-- whether a proxy of the name is wanted, and whether frps has one
unfoldable pub is_desired : Bytes → List Proxy → Bool
is_desired t [] = false
is_desired t (p ∷ ps) = same_bytes p.name t || is_desired t ps

unfoldable pub is_registered : Bytes → List ProxyInfo → Bool
is_registered t [] = false
is_registered t (p ∷ ps) = same_bytes p.name t || is_registered t ps

has_name-desired_names :
    (t : Bytes) (ps : List Proxy) → has_name t (desired_names ps) ≡ is_desired t ps
unfolding desired_names is_desired has_name
has_name-desired_names t [] = refl
has_name-desired_names t (p ∷ ps) =
    has_name-put_name t p.name (desired_names ps)
    ∙ ap (λ b. same_bytes p.name t || b) (has_name-desired_names t ps)

has_name-registered_names :
    (t : Bytes) (ps : List ProxyInfo)
    → has_name t (registered_names ps) ≡ (is_ours (parse_proxy_name t) && is_registered t ps)
unfolding registered_names is_registered has_name
has_name-registered_names t [] = ground arith
has_name-registered_names t (p ∷ ps) = elim (Bool-cases (is_ours (parse_proxy_name p.name))) [
  | inl ours ↦ rw ours (
      has_name-put_name t p.name (registered_names ps)
      ∙ ap (λ b. same_bytes p.name t || b) (has_name-registered_names t ps)
      ∙ absorb ours)
  | inr foreign ↦ rw foreign (has_name-registered_names t ps ∙ ignore foreign)
]
  where
    absorb :
        is_ours (parse_proxy_name p.name) ≡ true
        → (same_bytes p.name t || (is_ours (parse_proxy_name t) && is_registered t ps))
          ≡ (is_ours (parse_proxy_name t) && (same_bytes p.name t || is_registered t ps))
    absorb ours = elim (Bool-cases (same_bytes p.name t)) [
      | inl same ↦
          let ours' =
            subst (λ n. is_ours (parse_proxy_name n) ≡ true) ((same_bytes_iff p.name t).0 same)
              ours in
          rw (same, ours') refl
      | inr other ↦ rw other refl
    ]

    ignore :
        is_ours (parse_proxy_name p.name) ≡ false
        → (is_ours (parse_proxy_name t) && is_registered t ps)
          ≡ (is_ours (parse_proxy_name t) && (same_bytes p.name t || is_registered t ps))
    ignore foreign = elim (Bool-cases (same_bytes p.name t)) [
      | inl same ↦
          let foreign' =
            subst (λ n. is_ours (parse_proxy_name n) ≡ false) ((same_bytes_iff p.name t).0 same)
              foreign in
          rw (same, foreign') refl
      | inr other ↦ rw other refl
    ]

-- The numbers of the rows are of int64.
abbrev pub AllInt64 : List NodeProxyRow → Type 0
AllInt64 [] = Unit {0}
AllInt64 (r ∷ rs) = IsInt64 r.mapping_id × IsInt64 r.node_id × AllInt64 rs

-- A name that is wanted has the panel's form.
desired-ours :
    (t : Bytes) (rows : List NodeProxyRow)
    → AllInt64 rows
    → is_desired t (desired_proxies rows) ≡ true
    → is_ours (parse_proxy_name t) ≡ true
unfolding is_desired desired_proxies proxy_of
desired-ours t [] h d = absurd (ground arith)
desired-ours t (r ∷ rs) (hm, hn, h) d =
    elim (Bool-cases (same_bytes (proxy_name r.mapping_id r.node_id) t)) [
      | inl same ↦
          subst (λ n. is_ours (parse_proxy_name n) ≡ true)
            ((same_bytes_iff (proxy_name r.mapping_id r.node_id) t).0 same)
            (ap is_ours (parse-proxy_name r.mapping_id r.node_id hm hn))
      | inr other ↦ desired-ours t rs h (rw other at d)
    ]

missing-reconcile :
    (t : Bytes) (desired : List Proxy) (ports : List PortSpec) (rate : ℤ) (ps : List ProxyInfo)
    → has_name t (reconcile desired ports rate (some ps)).missing
      ≡ (is_desired t desired && not (is_ours (parse_proxy_name t) && is_registered t ps))
unfolding reconcile
missing-reconcile t desired ports rate ps =
    has_name-not_in t (registered_names ps) (desired_names desired)
    ∙ ap₂ (λ a b. a && not b) (has_name-desired_names t desired) (has_name-registered_names t ps)

-- If frps answers, and the numbers of mappings and nodes are of int64: a name is logged as missing
-- exactly if a row of the node's enabled mappings gives it and frps has no proxy of it, and as left
-- over exactly if it has the panel's form, frps has a proxy of it and no row gives it.
pub has_name-reconcile :
    (t : Bytes) (rows : List NodeProxyRow) (rate : ℤ) (ps : List ProxyInfo)
    → AllInt64 rows
    → let found = reconcile (desired_proxies rows) (port_specs rows) rate (some ps) in
      (has_name t found.missing ≡ (is_desired t (desired_proxies rows) && not (is_registered t ps)))
      × (has_name t found.extra ≡ (
          is_ours (parse_proxy_name t)
          && is_registered t ps
          && not (is_desired t (desired_proxies rows))))
unfolding reconcile
has_name-reconcile t rows rate ps h = (
  missing-reconcile t (desired_proxies rows) (port_specs rows) rate ps
      ∙ elim (Bool-cases (is_desired t (desired_proxies rows))) [
        | inl wanted ↦ rw (wanted, desired-ours t rows h wanted) refl
        | inr unwanted ↦ rw unwanted refl
      ],
  has_name-not_in t (desired_names (desired_proxies rows)) (registered_names ps)
      ∙ ap₂ (λ a b. a && not b) (has_name-registered_names t ps)
          (has_name-desired_names t (desired_proxies rows))
      ∙ ground arith,
)
