-- ===== src/Prelude/Int.antt =====
-- Signed integers over the native numbers, and Go's int64: an integer that every addition wraps
-- into [-2^63, 2^63).
use Prim.Native.Nat.{ℕ, suc, ◌+◌, ◌-◌, ◌*◌, ◌/◌, ◌%◌, ◌^◌, ◌≤◌, ◌<◌}
use mathlib.Core.Path.{◌≡◌, sym, ap, ◌∙◌}
use mathlib.Core.Logic.{◌↔◌}
use mathlib.Core.Bool.{Bool, true}
use native.Mathlib.Omega.{arith}
use native.Mathlib.Decide.{dec_lt}
use frp_panel.Prelude.Bools.{ltb, leb, ◌==◌, if◌then◌else◌}

-- `negsuc n` is -(n + 1).
pub data ℤ : Type 0 where
  pos : ℕ → ℤ
  negsuc : ℕ → ℤ

abbrev pub pos_part : ℤ → ℕ
pos_part (pos n) = n
pos_part (negsuc n) = 0

abbrev pub neg_part : ℤ → ℕ
neg_part (pos n) = 0
neg_part (negsuc n) = suc n

-- a - b, as an integer.
abbrev pub sub_ℕ : ℕ → ℕ → ℤ
sub_ℕ a b = if leb b a then pos (a - b) else negsuc (b - a - 1)

infixl 65 ◌+ℤ◌ ◌-ℤ◌
infix 50 ◌≤ℤ◌ ◌<ℤ◌
unfoldable pub ◌+ℤ◌ : ℤ → ℤ → ℤ
a +ℤ b = sub_ℕ (pos_part a + pos_part b) (neg_part a + neg_part b)

unfoldable pub ◌-ℤ◌ : ℤ → ℤ → ℤ
a -ℤ b = sub_ℕ (pos_part a + neg_part b) (neg_part a + pos_part b)

abbrev pub ◌≤ℤ◌ : ℤ → ℤ → Type 0
a ≤ℤ b = pos_part a + neg_part b ≤ pos_part b + neg_part a

abbrev pub ◌<ℤ◌ : ℤ → ℤ → Type 0
a <ℤ b = pos_part a + neg_part b < pos_part b + neg_part a

abbrev pub ltb_ℤ : ℤ → ℤ → Bool
ltb_ℤ a b = ltb (pos_part a + neg_part b) (pos_part b + neg_part a)

abbrev pub leb_ℤ : ℤ → ℤ → Bool
leb_ℤ a b = leb (pos_part a + neg_part b) (pos_part b + neg_part a)

abbrev pub eqb_ℤ : ℤ → ℤ → Bool
eqb_ℤ a b = (pos_part a + neg_part b) == (pos_part b + neg_part a)

-- One lemma for each operation lets `omega` work with the operations shut, at any depth.
pub +ℤ_parts :
    (a b : ℤ)
    → pos_part (a +ℤ b) + neg_part a + neg_part b ≡ neg_part (a +ℤ b) + pos_part a + pos_part b
unfolding ◌+ℤ◌
+ℤ_parts a b = ground arith

pub -ℤ_parts :
    (a b : ℤ)
    → pos_part (a -ℤ b) + neg_part a + pos_part b ≡ neg_part (a -ℤ b) + pos_part a + neg_part b
unfolding ◌-ℤ◌
-ℤ_parts a b = ground arith

pub eq_of_parts : (a b : ℤ) → pos_part a + neg_part b ≡ pos_part b + neg_part a → a ≡ b
eq_of_parts a b h = ground arith

-- An equation of integers, as `omega` reads it.
pub parts : {a b : ℤ} → a ≡ b → (pos_part a ≡ pos_part b) × (neg_part a ≡ neg_part b)
parts e = (ap pos_part e, ap neg_part e)

pub eqb_ℤ_iff : (a b : ℤ) → (eqb_ℤ a b ≡ true) ↔ (a ≡ b)
eqb_ℤ_iff a b = ground arith

pub ruleset int_laws = (arith, +ℤ_parts, -ℤ_parts, eq_of_parts)

pub +ℤ_comm : (a b : ℤ) → a +ℤ b ≡ b +ℤ a
+ℤ_comm a b = omega int_laws

pub +ℤ_assoc : (a b c : ℤ) → a +ℤ b +ℤ c ≡ a +ℤ (b +ℤ c)
+ℤ_assoc a b c = omega int_laws

pub +ℤ-zero : (a : ℤ) → a +ℤ pos 0 ≡ a
+ℤ-zero a = omega int_laws

pub zero-+ℤ : (a : ℤ) → pos 0 +ℤ a ≡ a
zero-+ℤ a = omega int_laws

-- The int64 that an integer's low 64 bits stand for.
low64 : ℕ → ℕ
low64 n = n % 2 ^ 64

unfoldable pub wrap64 : ℤ → ℤ
unfolding low64
wrap64 (pos n) = if ltb (low64 n) (2 ^ 63) then pos (low64 n) else negsuc (2 ^ 64 - 1 - low64 n)
wrap64 (negsuc n) = if ltb (low64 n) (2 ^ 63) then negsuc (low64 n) else pos (2 ^ 64 - 1 - low64 n)

abbrev pub IsInt64 : ℤ → Type 0
IsInt64 a = (pos_part a < 2 ^ 63) × (neg_part a ≤ 2 ^ 63)

pub wrap64-IsInt64 : (a : ℤ) → IsInt64 (wrap64 a)
unfolding wrap64
wrap64-IsInt64 (pos n) = ground arith
wrap64-IsInt64 (negsuc n) = ground arith

pub wrap64_of_IsInt64 : (a : ℤ) → IsInt64 a → wrap64 a ≡ a
unfolding wrap64
wrap64_of_IsInt64 (pos n) h = ground arith
wrap64_of_IsInt64 (negsuc n) h = ground arith

-- a + b and a - b of int64.
infixl 65 ◌+64◌ ◌-64◌
unfoldable pub ◌+64◌ : ℤ → ℤ → ℤ
a +64 b = wrap64 (a +ℤ b)

unfoldable pub ◌-64◌ : ℤ → ℤ → ℤ
a -64 b = wrap64 (a -ℤ b)

-- a and b agree in their low 64 bits.
abbrev pub Congruent : ℤ → ℤ → Type 0
Congruent a b =
    (j : ℕ) × (k : ℕ) × (pos_part a + neg_part b + 2 ^ 64 * j
      ≡ neg_part a + pos_part b + 2 ^ 64 * k)

pub wrap64-Congruent : (a : ℤ) → Congruent (wrap64 a) a
unfolding wrap64
wrap64-Congruent (pos n) = elim (dec_lt (n % 2 ^ 64) (2 ^ 63)) [
  | yes h ↦ (n / 2 ^ 64, 0, ground arith)
  | no h ↦ (n / 2 ^ 64 + 1, 0, ground arith)
]
wrap64-Congruent (negsuc n) = elim (dec_lt (n % 2 ^ 64) (2 ^ 63)) [
  | yes h ↦ (0, n / 2 ^ 64, ground arith)
  | no h ↦ (0, n / 2 ^ 64 + 1, ground arith)
]

-- An int64 is determined by its low 64 bits.
pub Congruent-eq : (a b : ℤ) → IsInt64 a → IsInt64 b → Congruent a b → a ≡ b
Congruent-eq a b ha hb (j, k, e) = eq_of_parts a b (omega arith)

-- Wrapping at every step is wrapping once at the end.
pub wrap64-add : (a b : ℤ) → wrap64 (wrap64 a +ℤ b) ≡ wrap64 (a +ℤ b)
wrap64-add a b =
    let (j, k, e) = wrap64-Congruent a in
    let (j', k', e') = wrap64-Congruent (wrap64 a +ℤ b) in
    let (j2, k2, e2) = wrap64-Congruent (a +ℤ b) in
    Congruent-eq _ _ (wrap64-IsInt64 _) (wrap64-IsInt64 _)
      (j + j' + k2, k + k' + j2, omega (arith, +ℤ_parts (wrap64 a) b, +ℤ_parts a b))

pub +64_IsInt64 : (a b : ℤ) → IsInt64 (a +64 b)
unfolding ◌+64◌
+64_IsInt64 a b = wrap64-IsInt64 (a +ℤ b)

regroup : (a b c : ℤ) → a +ℤ b +ℤ c ≡ b +ℤ c +ℤ a
regroup a b c = omega int_laws

pub +64_assoc : (a b c : ℤ) → a +64 b +64 c ≡ a +64 (b +64 c)
unfolding ◌+64◌
+64_assoc a b c =
    wrap64-add (a +ℤ b) c
    ∙ ap wrap64 (regroup a b c)
    ∙ sym (wrap64-add (b +ℤ c) a)
    ∙ ap wrap64 (+ℤ_comm (wrap64 (b +ℤ c)) a)

pub +64_comm : (a b : ℤ) → a +64 b ≡ b +64 a
unfolding ◌+64◌
+64_comm a b = rw (+ℤ_comm a b)

pub zero-+64 : (a : ℤ) → IsInt64 a → pos 0 +64 a ≡ a
unfolding ◌+64◌
zero-+64 a h = rw (zero-+ℤ a) (wrap64_of_IsInt64 a h)
