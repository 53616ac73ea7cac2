-- ===== src/Metrics/Ring/Round.antt =====
-- Going round, and the end of a list.
use native.Mathlib.Decide.{dec_lt}
use native.Mathlib.Nat.{mod-eq_of_lt, mod-eq-sub-mod}
use frp_panel.Prelude.{
  ℕ, zero, suc, ◌+◌, ◌-◌, ◌%◌, ◌≤◌, ◌<◌, ◌≡◌, ◌≢◌, ◌⊎◌, refl, ap, sym, ◌∙◌, length-drop,
  length-append, List, [], ◌∷◌, ◌++◌, arith, length, drop, inl, inr,
}
use frp_panel.Metrics.Ring.Window.{}

-- The last `n` entries.
abbrev pub keep_last {ℓ} : {A : Type ℓ} → ℕ → List A → List A
keep_last n xs = drop (length xs - n) xs

pub drop-append {ℓ} :
    {A : Type ℓ} (k : ℕ) (xs ys : List A) → k ≤ length xs → drop k (xs ++ ys) ≡ drop k xs ++ ys
drop-append zero xs ys h = refl
drop-append (suc k) [] ys h = elim h [ ]
drop-append (suc k) (x ∷ xs) ys h = drop-append k xs ys (omega arith)

-- One step round.
pub go-round : (x m h : ℕ) → h < m → (x ≡ h) ⊎ (x ≡ h + m) → h ≡ x % m
go-round x m h hh (inl e) = rw (e, mod-eq_of_lt hh)
go-round x m h hh (inr e) = omega (
  arith,
  mod-eq-sub-mod {n = x} {m = m} (omega arith),
  mod-eq_of_lt {n = x - m} {m = m} (omega arith),
)

pub same-mod-ne : (st n j m : ℕ) → st < m → j < 0 + n → n < m → (st + n) % m ≢ (st + j) % m
same-mod-ne st n j m hst q hn c = elim (dec_lt (st + n) m) [
  | yes p ↦ omega (arith, mod-eq_of_lt p, mod-eq_of_lt {n = st + j} {m = m} (omega arith))
  | no p ↦ elim (dec_lt (st + j) m) [
    | yes p2 ↦ omega (
      arith,
      mod-eq-sub-mod {n = st + n} {m = m} (omega arith),
      mod-eq_of_lt {n = st + n - m} {m = m} (omega arith),
      mod-eq_of_lt p2,
    )
    | no p2 ↦ omega (
      arith,
      mod-eq-sub-mod {n = st + n} {m = m} (omega arith),
      mod-eq_of_lt {n = st + n - m} {m = m} (omega arith),
      mod-eq-sub-mod {n = st + j} {m = m} (omega arith),
      mod-eq_of_lt {n = st + j - m} {m = m} (omega arith),
    )
  ]
]

drop-nil {ℓ} : (A : Type ℓ) (j : ℕ) → drop {A = A} j [] ≡ []
drop-nil A zero = refl
drop-nil A (suc j) = refl

pub drop-drop {ℓ} :
    {A : Type ℓ} (j k m : ℕ) (xs : List A) → m ≡ j + k → drop j (drop k xs) ≡ drop m xs
drop-drop j zero m xs e = ap (λ t. drop t xs) (omega arith)
drop-drop j (suc k) zero xs e = absurd (omega arith)
drop-drop {A} j (suc k) (suc m) [] e = drop-nil A j
drop-drop j (suc k) (suc m) (x ∷ xs) e = drop-drop j k m xs (omega arith)

pub keep_last-keep_last {ℓ} :
    {A : Type ℓ} (n : ℕ) (xs ys : List A)
    → keep_last n (keep_last n xs ++ ys) ≡ keep_last n (xs ++ ys)
keep_last-keep_last n xs ys =
    ap (keep_last n) (sym (drop-append (length xs - n) xs ys (omega arith)))
    ∙ drop-drop (length (drop (length xs - n) (xs ++ ys)) - n) (length xs - n)
        (length (xs ++ ys) - n) (xs ++ ys)
        (omega (arith, length-drop (length xs - n) (xs ++ ys), length-append xs ys))
