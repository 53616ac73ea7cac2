-- ===== src/Metrics/Ring/Window.antt =====
-- `collect` reads a window of the buffer that goes round at its end.
use native.Mathlib.Nat.{mod-add-mod, mod-eq_of_lt, mod-eq-sub-mod}
use native.Mathlib.Decide.{dec_lt}
use frp_panel.Prelude.{
  ℕ, zero, suc, ◌+◌, ◌-◌, ◌%◌, ◌≤◌, ◌<◌, ◌≡◌, ◌≢◌, refl, sym, ap, ap₂, ◌∙◌, List, [], ◌∷◌, ◌++◌,
  arith, length, get_or, set, length-set,
}
use frp_panel.Metrics.Float.{Floats}
use frp_panel.Metrics.Ring.{Sample, zero_sample, collect}

module _ {ℓ} {A : Type ℓ} where
  pub get_or-set_self :
      (xs : List A) (i : ℕ) (v d : A) → i < length xs → get_or (set xs i v) i d ≡ v
  get_or-set_self [] i v d h = elim h [ ]
  get_or-set_self (x ∷ xs) zero v d h = refl
  get_or-set_self (x ∷ xs) (suc i) v d h = get_or-set_self xs i v d (omega arith)

  pub get_or-set_ne :
      (xs : List A) (i j : ℕ) (v d : A) → i ≢ j → get_or (set xs i v) j d ≡ get_or xs j d
  get_or-set_ne [] i j v d h = refl
  get_or-set_ne (x ∷ xs) zero zero v d h = absurd (h refl)
  get_or-set_ne (x ∷ xs) zero (suc j) v d h = refl
  get_or-set_ne (x ∷ xs) (suc i) zero v d h = refl
  get_or-set_ne (x ∷ xs) (suc i) (suc j) v d h = get_or-set_ne xs i j v d (λ e. h (ap suc e))

-- Fewer than `m` steps round do not come back.
pub mod-ne : (m h k : ℕ) → h < m → 0 < k → k < m → (h + k) % m ≢ h
mod-ne m h k hh k0 hk = elim (dec_lt (h + k) m) [
  | yes p ↦ omega (arith, mod-eq_of_lt p)
  | no p ↦ omega (
    arith,
    mod-eq-sub-mod {n = h + k} {m = m} (omega arith),
    mod-eq_of_lt {n = h + k - m} {m = m} (omega arith),
  )
]

module _ (F : Floats) where
  abbrev at : List (Sample F) → ℕ → Sample F
  at buf i = get_or buf i (zero_sample F)

  pub length-collect :
      (buf : List (Sample F)) (start i n : ℕ) → length (collect F buf start i n) ≡ n
  unfolding collect
  length-collect buf start i zero = refl
  length-collect buf start i (suc n) = ap suc (length-collect buf start (i + 1) n)

  -- The last sample that is read.
  pub collect-suc :
      (buf : List (Sample F)) (start i n k : ℕ)
      → k ≡ (start + (i + n)) % length buf
      → collect F buf start i (suc n) ≡ collect F buf start i n ++ at buf k ∷ []
  unfolding collect
  collect-suc buf start i zero k e =
      ap (λ j. at buf j ∷ []) (ap (λ t. (start + t) % length buf) (omega arith) ∙ sym e)
  collect-suc buf start i (suc n) k e =
      ap (λ l. at buf ((start + i) % length buf) ∷ l)
        (collect-suc buf start (i + 1) n k (e ∙ ap (λ t. (start + t) % length buf) (omega arith)))

  -- Starting one further along is counting from one more.
  pub collect_shift :
      (buf : List (Sample F)) (start i n : ℕ)
      → collect F buf ((start + 1) % length buf) i n ≡ collect F buf start (i + 1) n
  unfolding collect
  collect_shift buf start i zero = refl
  collect_shift buf start i (suc n) =
      ap₂ ◌∷◌
        (ap (at buf)
          (mod-add-mod (start + 1) (length buf) i ∙ ap (λ t. t % length buf) (omega arith)))
        (collect_shift buf start (i + 1) n)

  -- A write that the window does not meet.
  pub collect-set :
      (buf : List (Sample F)) (s : Sample F) (h start i n : ℕ)
      → ((j : ℕ) → i ≤ j → j < i + n → h ≢ (start + j) % length buf)
      → collect F (set buf h s) start i n ≡ collect F buf start i n
  unfolding collect
  collect-set buf s h start i zero away = refl
  collect-set buf s h start i (suc n) away = rw (length-set buf h s) (
      ap₂ ◌∷◌ (get_or-set_ne buf h _ s (zero_sample F) (away i (omega arith) (omega arith)))
        (collect-set buf s h start (i + 1) n (λ j p q. away j (omega arith) (omega arith))))
