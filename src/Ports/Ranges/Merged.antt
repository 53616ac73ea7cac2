-- ===== src/Ports/Ranges/Merged.antt =====
-- What the loops before the last one do to the ports that are covered.
use mathlib.Core.List.{Permᴰ}
use mathlib.Core.List.Permᴰ.{nil, cons, swap, trans}
use frp_panel.Prelude.{
  ◌≡◌, refl, sym, ap, ap₂, subst, ◌∙◌, Bool, true, false, ◌&&◌, ◌||◌, List, [], ◌∷◌, if◌then◌else◌,
  arith, Bool-cases, inl, inr,
}
use frp_panel.Prelude.Int.{ℤ, pos, ◌+ℤ◌, ltb_ℤ, leb_ℤ, ◌≤ℤ◌, ◌<ℤ◌, +ℤ_parts}
use frp_panel.Ports.Ranges.{Range, order, clamp, outside, normalize, merge_from}

abbrev pub within : ℤ → Range → Bool
within x r = leb_ℤ r.0 x && leb_ℤ x r.1

-- Is the port in one of the ranges?
unfoldable pub covers : ℤ → List Range → Bool
covers x [] = false
covers x (r ∷ rs) = within x r || covers x rs

-- The same, whichever end of a range comes first.
unfoldable pub excludes : ℤ → List Range → Bool
excludes x [] = false
excludes x (r ∷ rs) = within x r || within x (r.1, r.0) || excludes x rs

-- The ranges start at or after `a`, in order.
abbrev pub Ascending : ℤ → List Range → Type 0
Ascending a [] = Unit {0}
Ascending a (r ∷ rs) = (a ≤ℤ r.0) × Ascending r.0 rs

abbrev pub Sorted : List Range → Type 0
Sorted [] = Unit {0}
Sorted (r ∷ rs) = Ascending r.0 rs

-- What `sort.Slice` promises.
pub record SortsByStart (sort : List Range → List Range) : Type 0 where
  pub permutes : (rs : List Range) → Permᴰ rs (sort rs)
  pub sorts : (rs : List Range) → Sorted (sort rs)

-- Each start lies in [lo, hi].
abbrev pub Starts : ℤ → ℤ → List Range → Type 0
Starts lo hi [] = Unit {0}
Starts lo hi (r ∷ rs) = (lo ≤ℤ r.0) × (r.0 ≤ℤ hi) × Starts lo hi rs

within-order : (x : ℤ) (e : Range) → within x (order e) ≡ (within x e || within x (e.1, e.0))
unfolding order
within-order x e = ground arith

within-clamp :
    (x lo hi : ℤ) (e : Range) → within x (clamp lo hi e) ≡ (within x (lo, hi) && within x e)
unfolding clamp
within-clamp x lo hi e = ground arith

within-outside :
    (x lo hi : ℤ) (e : Range) → outside lo hi e ≡ true → (within x (lo, hi) && within x e) ≡ false
within-outside x lo hi e h = ground arith

split_or : (a b c : Bool) → (a && (b || c)) ≡ (a && b || (a && c))
split_or a b c = ground arith

or_assoc : (a b c : Bool) → (a || b || c) ≡ (a || (b || c))
or_assoc a b c = ground arith

or_swap : (a b c : Bool) → (a || (b || c)) ≡ (b || (a || c))
or_swap a b c = ground arith

-- one turn of the loop
covers-normalize_cons :
    (x lo hi : ℤ) (e : Range) (es : List Range)
    → covers x (normalize lo hi (e ∷ es))
      ≡ (within x (lo, hi) && within x (order e) || covers x (normalize lo hi es))
unfolding covers normalize
covers-normalize_cons x lo hi e es = elim (Bool-cases (outside lo hi (order e))) [
  | inl out ↦ rw (out, within-outside x lo hi (order e) out) refl
  | inr kept ↦
      rw kept (ap (λ b. b || covers x (normalize lo hi es)) (within-clamp x lo hi (order e)))
]

pub covers-normalize :
    (x lo hi : ℤ) (es : List Range)
    → covers x (normalize lo hi es) ≡ (within x (lo, hi) && excludes x es)
unfolding covers excludes normalize
covers-normalize x lo hi [] = ground arith
covers-normalize x lo hi (e ∷ es) =
    covers-normalize_cons x lo hi e es
    ∙ ap₂ (λ o r. within x (lo, hi) && o || r) (within-order x e) (covers-normalize x lo hi es)
    ∙ sym (split_or (within x (lo, hi)) (within x e || within x (e.1, e.0)) (excludes x es))

pub Starts-normalize : (lo hi : ℤ) (es : List Range) → lo ≤ℤ hi → Starts lo hi (normalize lo hi es)
unfolding normalize order clamp
Starts-normalize lo hi [] h = tt
Starts-normalize lo hi (e ∷ es) h = elim (Bool-cases (outside lo hi (order e))) [
  | inl out ↦ rw out (Starts-normalize lo hi es h)
  | inr kept ↦ rw kept (ground arith, ground arith, Starts-normalize lo hi es h)
]

pub covers-perm : (x : ℤ) (rs ss : List Range) → Permᴰ rs ss → covers x rs ≡ covers x ss
unfolding covers
covers-perm x rs ss nil = refl
covers-perm x rs ss (cons {l₁ = l} {l₂ = m} e p) =
    ap₂ (λ r b. within x r || b) e (covers-perm x l m p)
covers-perm x rs ss (swap {a = a} {b = b} {a' = c} {b' = d} {l = l} e f) =
    or_swap (within x a) (within x b) (covers x l)
    ∙ ap₂ (λ s t. within x s || (within x t || covers x l)) f e
covers-perm x rs ss (trans {l₂ = l} p q) = covers-perm x rs l p ∙ covers-perm x l ss q

pub Starts-perm : (lo hi : ℤ) (rs ss : List Range) → Permᴰ rs ss → Starts lo hi rs → Starts lo hi ss
Starts-perm lo hi rs ss nil h = tt
Starts-perm lo hi rs ss (cons {l₁ = l} {l₂ = m} e p) h =
    subst (λ r. (lo ≤ℤ r.0) × (r.0 ≤ℤ hi) × Starts lo hi m) e
      (h.0, h.1, Starts-perm lo hi l m p h.2)
Starts-perm lo hi rs ss (swap {a = a} {b = b} {a' = c} {b' = d} {l = l} e f)
      (h0, h1, (h2, h3, hs)) =
    subst (λ r. (lo ≤ℤ r.0) × (r.0 ≤ℤ hi) × Starts lo hi (d ∷ l)) f
      (h2, h3, subst (λ r. (lo ≤ℤ r.0) × (r.0 ≤ℤ hi) × Starts lo hi l) e (h0, h1, hs))
Starts-perm lo hi rs ss (trans {l₂ = l} p q) h =
    Starts-perm lo hi l ss q (Starts-perm lo hi rs l p h)

pub Ascending-down : (a b : ℤ) (es : List Range) → a ≤ℤ b → Ascending b es → Ascending a es
Ascending-down a b [] h s = tt
Ascending-down a b (e ∷ es) h s = (omega arith, s.1)

pub Ascending-Sorted : (a : ℤ) (es : List Range) → Ascending a es → Sorted es
Ascending-Sorted a [] s = tt
Ascending-Sorted a (e ∷ es) s = s.1

-- Nothing starts before `a`.
pub covers-before : (x a : ℤ) (es : List Range) → Ascending a es → x <ℤ a → covers x es ≡ false
unfolding covers
covers-before x a [] s h = refl
covers-before x a (e ∷ es) s h =
    ap₂ (λ b c. b || c) {x = within x e} {y = false} (ground arith)
      (covers-before x e.0 es s.1 (omega arith))

-- Two ranges that meet are one.
within-joined :
    (x : ℤ) (cur e : Range)
    → cur.0 ≤ℤ e.0
    → leb_ℤ e.0 (cur.1 +ℤ pos 1) ≡ true
    → within x (cur.0, if ltb_ℤ cur.1 e.1 then e.1 else cur.1) ≡ (within x cur || within x e)
within-joined x cur e h joins = ground (arith, +ℤ_parts cur.1 (pos 1))

pub covers-merge_from :
    (x : ℤ) (es : List Range) (cur : Range)
    → Ascending cur.0 es
    → covers x (merge_from cur es) ≡ (within x cur || covers x es)
unfolding covers merge_from
covers-merge_from x [] cur h = refl
covers-merge_from x (e ∷ es) cur h = elim (Bool-cases (leb_ℤ e.0 (cur.1 +ℤ pos 1))) [
  | inl joins ↦ rw joins (
      covers-merge_from x es (cur.0, if ltb_ℤ cur.1 e.1 then e.1 else cur.1)
        (Ascending-down cur.0 e.0 es h.0 h.1)
      ∙ ap (λ b. b || covers x es) (within-joined x cur e h.0 joins)
      ∙ or_assoc (within x cur) (within x e) (covers x es))
  | inr apart ↦ rw apart (ap (λ b. within x cur || b) (covers-merge_from x es e h.1))
]
