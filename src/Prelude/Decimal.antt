-- ===== src/Prelude/Decimal.antt =====
-- Numbers as text: what the source uses of Go's package `strconv`.
pub mod ReadBack
use Prim.Native.Nat.{ℕ, zero, suc, ◌+◌, ◌-◌, ◌*◌, ◌/◌, ◌%◌, ◌^◌, ◌≤◌, ◌<◌}
use mathlib.Core.Path.{◌≡◌, refl, ap, ◌∙◌}
use mathlib.Core.Logic.{inl, inr}
use mathlib.Core.Bool.{Bool, true, false, ◌&&◌, ◌||◌}
use mathlib.Core.Option.{Option, none, some}
use mathlib.Core.List.{List, [], ◌∷◌, ◌++◌}
use native.Mathlib.Omega.{arith}
use frp_panel.Prelude.Bools.{if◌then◌else◌, ltb, leb, ◌==◌, Bool-cases}
use frp_panel.Prelude.Int.{ℤ, pos, negsuc, IsInt64}
use frp_panel.Prelude.Text.{Bytes}

-- The digits of a number in base 10; `n + 1` rounds are enough.
unfoldable pub digits : ℕ → ℕ → Bytes
digits zero n = []
digits (suc f) n =
    let rest = digits f (n / 10) ++ (48 + n % 10) ∷ [] in if ltb n 10 then (48 + n) ∷ [] else rest

-- strconv.FormatInt in base 10
unfoldable pub decimal : ℤ → Bytes
decimal (pos n) = digits (n + 1) n
decimal (negsuc n) = 45 ∷ digits (n + 2) (n + 1)

-- A number that does not fit gives the nearest one that does, with an error.
pub data Parsed {ℓ} (A : Type ℓ) : Type ℓ where
  exact : A → Parsed A
  out_of_range : A → Parsed A
  bad_syntax : Parsed A

-- The digit that a byte stands for; 36 is none.
unfoldable pub digit_of : ℕ → ℕ
digit_of b =
    if leb 48 b && leb b 57
    then b - 48
    else if leb 97 b && leb b 122
    then b - 87
    else if leb 65 b && leb b 90
    then b - 55
    else 36

-- The digits that are left, after those that stand for `acc`.
unfoldable pub parse_digits : ℕ → ℕ → Bytes → ℕ → Parsed ℕ
parse_digits base bits [] acc = exact acc
parse_digits base bits (b ∷ bs) acc =
    let d = digit_of b in
    let rest = parse_digits base bits bs (acc * base + d) in
    if leb base d
    then bad_syntax
    else if leb (2 ^ bits) (acc * base + d)
    then out_of_range (2 ^ bits - 1)
    else rest

-- strconv.ParseUint
unfoldable pub parse_uint : ℕ → ℕ → Bytes → Parsed ℕ
parse_uint base bits [] = bad_syntax
parse_uint base bits (b ∷ bs) = parse_digits base bits (b ∷ bs) 0

abbrev pub neg : ℕ → ℤ
neg zero = pos 0
neg (suc n) = negsuc n

abbrev signed_pos : ℕ → Parsed ℕ → Parsed ℤ
signed_pos bits bad_syntax = bad_syntax
signed_pos bits (exact n) =
    if leb (2 ^ (bits - 1)) n then out_of_range (pos (2 ^ (bits - 1) - 1)) else exact (pos n)
signed_pos bits (out_of_range n) = out_of_range (pos (2 ^ (bits - 1) - 1))

abbrev signed_neg : ℕ → Parsed ℕ → Parsed ℤ
signed_neg bits bad_syntax = bad_syntax
signed_neg bits (exact n) =
    if ltb (2 ^ (bits - 1)) n then out_of_range (neg (2 ^ (bits - 1))) else exact (neg n)
signed_neg bits (out_of_range n) = out_of_range (neg (2 ^ (bits - 1)))

-- strconv.ParseInt
unfoldable pub parse_int : ℕ → ℕ → Bytes → Parsed ℤ
parse_int base bits [] = bad_syntax
parse_int base bits (b ∷ bs) =
    if b == 43
    then signed_pos bits (parse_uint base bits bs)
    else if b == 45
    then signed_neg bits (parse_uint base bits bs)
    else signed_pos bits (parse_uint base bits (b ∷ bs))

-- the number, whatever the error
abbrev pub value_or : {A : Type 0} → A → Parsed A → A
value_or a (exact b) = b
value_or a (out_of_range b) = b
value_or a bad_syntax = a

-- the number, if there is no error
abbrev pub to_option : {A : Type 0} → Parsed A → Option A
to_option (exact b) = some b
to_option (out_of_range b) = none
to_option bad_syntax = none
