-- ===== src/Frpc/AdminPort.antt =====
-- `AdminPort` of `FrpcManager`. Nodes have positive numbers. Which ports something listens on is an
-- argument.
use native.Mathlib.Nat.{mod-lt, mod-eq_of_lt, mod-eq-sub-mod}
use native.Mathlib.Decide.{dec_le}
use frp_panel.Prelude.{
  ℕ, zero, suc, ◌+◌, ◌-◌, ◌%◌, ◌≤◌, ◌<◌, ◌==◌, ◌≡◌, refl, sym, ap, subst, ◌∙◌, Bool, true, false,
  ◌||◌, Option, none, some, [], ◌∷◌, arith, if◌then◌else◌, ltb, Bool-cases, inl, inr,
}
use frp_panel.Prelude.Assoc.{Assoc, lookup, insert, nat_eq, lookup-insert}

-- the values of `m.adminPorts`
unfoldable pub is_used : ℕ → Assoc ℕ ℕ → Bool
is_used port [] = false
is_used port ((node, p) ∷ ports) = p == port || is_used port ports

-- `base - portutil.AdminLow`
unfoldable pub base_offset : ℕ → ℕ
base_offset node = if ltb 7500 (7400 + node) then 0 else node

-- the loop, from `i` on with `n` turns left
unfoldable pub probe : (ℕ → Bool) → Assoc ℕ ℕ → ℕ → ℕ → ℕ → Option ℕ
probe listening ports base i zero = none
probe listening ports base i (suc n) =
    let p = 7400 + (base + i) % 101 in
    let rest = probe listening ports base (i + 1) n in
    if is_used p ports || listening p then rest else some p

-- the port, or the base of the range's first port if none is free
unfoldable pub or_base : ℕ → Option ℕ → ℕ
or_base base none = 7400 + base
or_base base (some p) = p

unfoldable pub allocate : (ℕ → Bool) → Assoc ℕ ℕ → ℕ → ℕ
allocate listening ports node =
    or_base (base_offset node) (probe listening ports (base_offset node) 0 101)

unfoldable pub admin_port : (ℕ → Bool) → Assoc ℕ ℕ → ℕ → Assoc ℕ ℕ × ℕ
admin_port listening ports node = elim (lookup node ports) [
  | none ↦ let p = allocate listening ports node in (insert node p ports, p)
  | some p ↦ (ports, p)
]

module _ (listening : ℕ → Bool) (ports : Assoc ℕ ℕ) where
  abbrev pub Free : ℕ → Type 0
  Free p = (is_used p ports ≡ false) × (listening p ≡ false)

  open_port : (p : ℕ) → (is_used p ports || listening p) ≡ false → Free p
  open_port p h = ground arith

  not_both : (p : ℕ) → (is_used p ports || listening p) ≡ true → Free p → ⊥
  not_both p h f = ground arith

  -- What the loop finds is free, and it finds something if a turn that is left would.
  probe-finds :
      (base i n k : ℕ)
      → i ≤ k
      → k < i + n
      → Free (7400 + (base + k) % 101)
      → (p : ℕ) × (probe listening ports base i n ≡ some p) × Free p × (7400 ≤ p) × (p ≤ 7500)
  unfolding probe
  probe-finds base i zero k h h' f = absurd (omega arith)
  probe-finds base i (suc n) k h h' f = elim (Bool-cases (is_used here ports || listening here)) [
    | inl taken ↦ rw taken (probe-finds base (i + 1) n k (later taken) (omega arith) f)
    | inr found ↦ (
      here,
      rw found refl,
      open_port here found,
      omega arith,
      omega (arith, mod-lt (base + i) {m = 101} (omega arith)),
    )
  ]
    where
      here : ℕ
      here = 7400 + (base + i) % 101

      later : (is_used here ports || listening here) ≡ true → i + 1 ≤ k
      later taken = elim (dec_le (i + 1) k) [
        | yes q ↦ q
        | no q ↦ absurd (
            not_both here taken
              (subst (λ t. Free (7400 + (base + t) % 101)) {x = k} {y = i} (omega arith) f))
      ]

  -- the turn that tries the port 7400 + j
  turn : (base j : ℕ) → base < 101 → j < 101 → (k : ℕ) × (k < 101) × ((base + k) % 101 ≡ j)
  turn base j hb hj = elim (dec_le base j) [
    | yes p ↦ (
      j - base,
      omega arith,
      ap (λ t. t % 101) {x = base + (j - base)} {y = j} (omega arith) ∙ mod-eq_of_lt hj,
    )
    | no p ↦ (
      j + 101 - base,
      omega arith,
      mod-eq-sub-mod {n = base + (j + 101 - base)} {m = 101} (omega arith)
          ∙ ap (λ t. t % 101) {x = base + (j + 101 - base) - 101} {y = j} (omega arith)
          ∙ mod-eq_of_lt hj,
    )
  ]

  base_offset-bound : (node : ℕ) → base_offset node < 101
  unfolding base_offset
  base_offset-bound node = ground arith

  Free-somewhere :
      (base j : ℕ)
      → (k : ℕ) → (base + k) % 101 ≡ j
      → Free (7400 + j)
      → Free (7400 + (base + k) % 101)
  Free-somewhere base j k e f = subst (λ t. Free (7400 + t)) (sym e) f

  -- A node without a port gets one from 7400 to 7500 that no node has and nothing listens on, if
  -- there is one; it is the node's from then on.
  admin_port-Free :
      (node j : ℕ)
      → lookup node ports ≡ none
      → j < 101
      → Free (7400 + j)
      → let (ports', p) = admin_port listening ports node in
        Free p × (7400 ≤ p) × (p ≤ 7500) × (lookup node ports' ≡ some p)
  unfolding admin_port allocate or_base
  admin_port-Free node j new hj f =
      let base = base_offset node in
      let (k, hk, e) = turn base j (base_offset-bound node) hj in
      let (p, found, free, lo, hi) =
        probe-finds base 0 101 k (omega arith) (omega arith) (Free-somewhere base j k e f) in
      rw (new, found, admin_port)
        (free, lo, hi, lookup-insert node node p ports ∙ ground (arith, nat_eq.beq_iff node node))
