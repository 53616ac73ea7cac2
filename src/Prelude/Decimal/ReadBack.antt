-- ===== src/Prelude/Decimal/ReadBack.antt =====
-- What is read back of a number that was printed, and the bytes that it is printed with.
use Prim.Native.Nat.{ℕ, zero, suc, ◌+◌, ◌*◌, ◌/◌, ◌%◌, ◌^◌, ◌≤◌, ◌<◌}
use mathlib.Core.Path.{◌≡◌, refl, ap, ◌∙◌}
use mathlib.Core.Logic.{◌≢◌, inl, inr}
use mathlib.Core.Option.{some}
use mathlib.Core.List.{[], ◌∷◌, ◌++◌}
use native.Mathlib.Omega.{arith}
use frp_panel.Prelude.Bools.{ltb, Bool-cases}
use frp_panel.Prelude.Int.{ℤ, pos, negsuc, IsInt64}
use frp_panel.Prelude.Text.{Bytes, cut_byte}
use frp_panel.Prelude.Decimal.{
  digits, decimal, exact, digit_of, parse_digits, parse_uint, parse_int,
}

parse_digits-append :
    (bits : ℕ) (xs ys : Bytes) (acc n : ℕ)
    → parse_digits 10 bits xs acc ≡ exact n
    → parse_digits 10 bits (xs ++ ys) acc ≡ parse_digits 10 bits ys n
unfolding parse_digits
parse_digits-append bits [] ys acc n h = ground arith
parse_digits-append bits (x ∷ xs) ys acc n h =
    ground (arith, parse_digits-append bits xs ys (acc * 10 + digit_of x) n)

digit_of_digit : (d : ℕ) → d < 10 → digit_of (48 + d) ≡ d
unfolding digit_of
digit_of_digit d h = ground arith

parse_digits-digits :
    (bits f n : ℕ) → n < f → n < 2 ^ bits → parse_digits 10 bits (digits f n) 0 ≡ exact n
unfolding digits
parse_digits-digits bits zero n h b = elim h [ ]
parse_digits-digits bits (suc f) n h b = elim (Bool-cases (ltb n 10)) [
  | inl small ↦ rw small (unfold parse_digits in ground (arith, digit_of_digit n))
  | inr large ↦ rw large (
      parse_digits-append bits (digits f (n / 10)) _ 0 (n / 10)
        (parse_digits-digits bits f (n / 10) (ground arith) (omega arith))
      ∙ unfold parse_digits in ground (arith, digit_of_digit (n % 10)))
]

-- every byte is one of '0' to '9'
abbrev pub AreDigits : Bytes → Type 0
AreDigits [] = Unit
AreDigits (b ∷ bs) = (48 ≤ b) × (b ≤ 57) × AreDigits bs

AreDigits-append : (xs ys : Bytes) → AreDigits xs → AreDigits ys → AreDigits (xs ++ ys)
AreDigits-append [] ys h k = k
AreDigits-append (x ∷ xs) ys h k = (h.0, h.1, AreDigits-append xs ys h.2 k)

digits-AreDigits : (f n : ℕ) → AreDigits (digits f n)
unfolding digits
digits-AreDigits zero n = tt
digits-AreDigits (suc f) n = elim (Bool-cases (ltb n 10)) [
  | inl small ↦ rw small (ground arith)
  | inr large ↦
      rw large (AreDigits-append (digits f (n / 10)) _ (digits-AreDigits f (n / 10)) (omega arith))
]

append-ne-nil : (xs : Bytes) (y : ℕ) (ys : Bytes) → xs ++ y ∷ ys ≢ []
append-ne-nil [] y ys h = cc
append-ne-nil (x ∷ xs) y ys h = cc

digits-ne-nil : (f n : ℕ) → digits (suc f) n ≢ []
unfolding digits
digits-ne-nil f n = elim (Bool-cases (ltb n 10)) [
  | inl small ↦ rw small (λ e. cc)
  | inr large ↦ rw large (append-ne-nil (digits f (n / 10)) _ [])
]

parse_int_pos :
    (n : ℕ) (bs : Bytes)
    → AreDigits bs
    → bs ≢ []
    → parse_digits 10 64 bs 0 ≡ exact n
    → n < 2 ^ 63
    → parse_int 10 64 bs ≡ exact (pos n)
unfolding parse_int parse_uint
parse_int_pos n [] h ne e b = absurd (ne refl)
parse_int_pos n (c ∷ cs) h ne e b = ground arith

parse_int_neg :
    (n : ℕ) (bs : Bytes)
    → bs ≢ []
    → parse_digits 10 64 bs 0 ≡ exact (suc n)
    → n < 2 ^ 63
    → parse_int 10 64 (45 ∷ bs) ≡ exact (negsuc n)
unfolding parse_int parse_uint
parse_int_neg n [] ne e b = absurd (ne refl)
parse_int_neg n (c ∷ cs) ne e b = ground arith

pub parse_int-decimal : (z : ℤ) → IsInt64 z → parse_int 10 64 (decimal z) ≡ exact z
unfolding decimal
parse_int-decimal (pos n) h =
    parse_int_pos n (digits (n + 1) n) (digits-AreDigits (n + 1) n)
      (λ e. digits-ne-nil n n (ap (λ f. digits f n) {x = suc n} {y = n + 1} (omega arith) ∙ e))
      (parse_digits-digits 64 (n + 1) n (omega arith) (omega arith)) (omega arith)
parse_int-decimal (negsuc n) h =
    parse_int_neg n (digits (n + 2) (n + 1))
      (λ e.
        digits-ne-nil (n + 1) (n + 1)
          (ap (λ f. digits f (n + 1)) {x = suc (n + 1)} {y = n + 2} (omega arith) ∙ e))
      (parse_digits-digits 64 (n + 2) (n + 1) (omega arith) (omega arith)
        ∙ ap exact {x = n + 1} {y = suc n} (omega arith))
      (omega arith)

-- A text is cut at the byte behind a part without that byte.
abbrev pub Without : ℕ → Bytes → Type 0
Without c [] = Unit
Without c (b ∷ bs) = (b ≢ c) × Without c bs

pub cut_byte-append :
    (c : ℕ) (xs ys : Bytes) → Without c xs → cut_byte c (xs ++ c ∷ ys) ≡ some (xs, ys)
unfolding cut_byte
cut_byte-append c [] ys h = ground arith
cut_byte-append c (x ∷ xs) ys h = ground (arith, cut_byte-append c xs ys)

AreDigits-Without : (c : ℕ) (bs : Bytes) → 57 < c → AreDigits bs → Without c bs
AreDigits-Without c [] h d = tt
AreDigits-Without c (b ∷ bs) h d = (λ e. ground arith, AreDigits-Without c bs h d.2)

pub decimal-Without : (c : ℕ) (z : ℤ) → 57 < c → Without c (decimal z)
unfolding decimal
decimal-Without c (pos n) h = AreDigits-Without c (digits (n + 1) n) h (digits-AreDigits (n + 1) n)
decimal-Without c (negsuc n) h = (
  λ e. ground arith,
  AreDigits-Without c (digits (n + 2) (n + 1)) h (digits-AreDigits (n + 2) (n + 1)),
)
