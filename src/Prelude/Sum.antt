-- ===== src/Prelude/Sum.antt =====
-- The sum of a weight over the entries of a map, and what an insertion does to it.
use frp_panel.Prelude.Bools.{Bool-cases}
use frp_panel.Prelude.Int.{
  ℤ, pos, ◌+ℤ◌, ◌-ℤ◌, ◌+64◌, int_laws, parts, wrap64, wrap64-add, +ℤ_comm, +ℤ-zero,
}
use frp_panel.Prelude.Assoc.{Assoc, Eq, lookup, insert}
use mathlib.Core.Path.{◌≡◌, sym, ap, subst, ◌∙◌}
use mathlib.Core.Logic.{inl, inr}
use mathlib.Core.Option.{Option, none, some}
use mathlib.Core.List.{[], ◌∷◌}

module _ {ℓ κ} {K : Type ℓ} {V : Type κ} (w : K → V → ℤ) where
  unfoldable pub sum_of : Assoc K V → ℤ
  sum_of [] = pos 0
  sum_of ((k, v) ∷ m) = w k v +ℤ sum_of m

  -- the weight of an entry that may be missing
  abbrev pub weight? : K → Option V → ℤ
  weight? k none = pos 0
  weight? k (some v) = w k v

  module _ ⦃e : Eq K⦄ where
    abbrev Entry : K → V → Assoc K V → Option V → Type 0
    Entry k v m o = sum_of (insert k v m) +ℤ weight? k o ≡ sum_of m +ℤ w k v

    pub sum_of-insert :
        (k : K) (v : V) (m : Assoc K V)
        → sum_of (insert k v m) +ℤ weight? k (lookup k m) ≡ sum_of m +ℤ w k v
    unfolding sum_of insert lookup
    sum_of-insert k v [] = omega int_laws
    sum_of-insert k v ((j, u) ∷ m) = elim (Bool-cases (e.beq j k)) [
      | inl h ↦ rw (h, (e.beq_iff j k).0 h) (omega int_laws)
      | inr h ↦ rw h (omega (int_laws, parts (sum_of-insert k v m)))
    ]

    pub sum_of-insert_new :
        (k : K) (v : V) (m : Assoc K V)
        → lookup k m ≡ none
        → sum_of (insert k v m) ≡ sum_of m +ℤ w k v
    sum_of-insert_new k v m h =
        omega (int_laws, parts (subst (λ o. Entry k v m o) h (sum_of-insert k v m)))

    pub sum_of-insert_old :
        (k : K) (v u : V) (m : Assoc K V)
        → lookup k m ≡ some u
        → sum_of (insert k v m) +ℤ w k u ≡ sum_of m +ℤ w k v
    sum_of-insert_old k v u m h = subst (λ o. Entry k v m o) h (sum_of-insert k v m)

pub add-wrap64 : (a b : ℤ) → wrap64 (a +ℤ wrap64 b) ≡ wrap64 (a +ℤ b)
add-wrap64 a b = ap wrap64 (+ℤ_comm a (wrap64 b)) ∙ wrap64-add b a ∙ ap wrap64 (+ℤ_comm b a)

-- Replacing the part `o` of a sum by an int64 that stands for `o + y` adds `y` to the int64 of it.
pub wrap64-settle :
    (a b b' o y : ℤ) → b' +ℤ o ≡ b +ℤ wrap64 (o +ℤ y) → wrap64 (a +ℤ b') ≡ wrap64 (a +ℤ b) +64 y
unfolding ◌+64◌
wrap64-settle a b b' o y e =
    ap wrap64 split
    ∙ add-wrap64 (a +ℤ b -ℤ o) (o +ℤ y)
    ∙ ap wrap64 join
    ∙ sym (wrap64-add (a +ℤ b) y)
  where
    split : a +ℤ b' ≡ a +ℤ b -ℤ o +ℤ wrap64 (o +ℤ y)
    split = omega (int_laws, parts e)

    join : a +ℤ b -ℤ o +ℤ (o +ℤ y) ≡ a +ℤ b +ℤ y
    join = omega int_laws

-- The same for a part that changes as an int64 changes.
pub wrap64-replace :
    (a b b' o w y : ℤ)
    → b' +ℤ o ≡ b +ℤ w
    → ((z : ℤ) → wrap64 (z +ℤ w) ≡ wrap64 (z +ℤ o) +64 y)
    → wrap64 (a +ℤ b') ≡ wrap64 (a +ℤ b) +64 y
wrap64-replace a b b' o w y e h = ap wrap64 split ∙ h (a +ℤ b -ℤ o) ∙ ap (λ t. wrap64 t +64 y) join
  where
    split : a +ℤ b' ≡ a +ℤ b -ℤ o +ℤ w
    split = omega (int_laws, parts e)

    join : a +ℤ b -ℤ o +ℤ o ≡ a +ℤ b
    join = omega int_laws

pub wrap64-+64_zero : (a : ℤ) → wrap64 a ≡ wrap64 a +64 pos 0
unfolding ◌+64◌
wrap64-+64_zero a = sym (wrap64-add a (pos 0) ∙ ap wrap64 (+ℤ-zero a))
