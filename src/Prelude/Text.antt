-- ===== src/Prelude/Text.antt =====
-- Texts as their bytes, and what the source uses of Go's packages `strings` and `bufio`. White space
-- is that of ASCII.
use Prim.Native.Nat.{ℕ, ◌+◌}
use mathlib.Core.Path.{◌≡◌}
use mathlib.Core.Logic.{◌↔◌}
use mathlib.Core.Bool.{Bool, true, false, ◌&&◌, ◌||◌}
use mathlib.Core.Option.{Option, none, some}
use mathlib.Core.List.{List, [], ◌∷◌, ◌++◌}
use native.Mathlib.Omega.{arith}
use Prim.Native.Char.{code}
use Prim.Native.String.{String}
use frp_panel.Prelude.Bools.{if◌then◌else◌, leb, ◌==◌}
use frp_panel.Prelude.Assoc.{Eq}

abbrev pub Bytes : Type 0
Bytes = List ℕ

-- A constant of the source by its code points, all of ASCII.
abbrev pub codes : String → Bytes
codes String.[] = []
codes (String.◌∷◌ c s) = code c ∷ codes s

unfoldable pub same_bytes : Bytes → Bytes → Bool
same_bytes [] [] = true
same_bytes [] (c ∷ cs) = false
same_bytes (b ∷ bs) [] = false
same_bytes (b ∷ bs) (c ∷ cs) = b == c && same_bytes bs cs

pub same_bytes_iff : (bs cs : Bytes) → (same_bytes bs cs ≡ true) ↔ (bs ≡ cs)
unfolding same_bytes
same_bytes_iff [] [] = ground arith
same_bytes_iff [] (c ∷ cs) = ground arith
same_bytes_iff (b ∷ bs) [] = ground arith
same_bytes_iff (b ∷ bs) (c ∷ cs) = ground (arith, same_bytes_iff bs cs)

instance abbrev pub bytes_eq : Eq Bytes
bytes_eq = record { beq = same_bytes; beq_iff = same_bytes_iff }

-- strings.HasPrefix, the prefix first
unfoldable pub has_prefix : Bytes → Bytes → Bool
has_prefix [] s = true
has_prefix (p ∷ ps) [] = false
has_prefix (p ∷ ps) (b ∷ bs) = p == b && has_prefix ps bs

-- strings.Contains, the part first
unfoldable pub has_part : Bytes → Bytes → Bool
has_part p [] = has_prefix p []
has_part p (b ∷ bs) = has_prefix p (b ∷ bs) || has_part p bs

-- strings.IndexByte: what precedes the first such byte, and what follows it
unfoldable pub cut_byte : ℕ → Bytes → Option (Bytes × Bytes)
cut_byte c [] = none
cut_byte c (b ∷ bs) =
    let rest = cut_byte c bs in
    if b == c then some ([], bs) else elim rest [ none ↦ none | some (u, v) ↦ some (b ∷ u, v) ]

-- what follows the last such byte
unfoldable pub after_last : ℕ → Bytes → Option Bytes
after_last c [] = none
after_last c (b ∷ bs) = elim (after_last c bs) [
  | some v ↦ some v
  | none ↦ if b == c then some bs else none
]

-- strings.Split
unfoldable pub split_from : ℕ → Bytes → Bytes → List Bytes
split_from c [] cur = cur ∷ []
split_from c (b ∷ bs) cur =
    let rest = split_from c bs (if b == c then [] else cur ++ b ∷ []) in
    if b == c then cur ∷ rest else rest

abbrev pub split : ℕ → Bytes → List Bytes
split c bs = split_from c bs []

unfoldable pub is_space : ℕ → Bool
is_space b = b == 32 || (leb 9 b && leb b 13)

abbrev emit : Bytes → List Bytes → List Bytes
emit [] fs = fs
emit (b ∷ bs) fs = (b ∷ bs) ∷ fs

-- strings.Fields
unfoldable pub fields_from : Bytes → Bytes → List Bytes
unfolding is_space
fields_from [] cur = emit cur []
fields_from (b ∷ bs) cur =
    let rest = fields_from bs (if is_space b then [] else cur ++ b ∷ []) in
    if is_space b then emit cur rest else rest

abbrev pub fields : Bytes → List Bytes
fields bs = fields_from bs []

unfoldable pub trim_left : Bytes → Bytes
unfolding is_space
trim_left [] = []
trim_left (b ∷ bs) = let rest = trim_left bs in if is_space b then rest else b ∷ bs

-- drops the white space at the end
unfoldable pub trim_right : Bytes → Bytes
unfolding is_space
trim_right [] = []
trim_right (b ∷ bs) = elim (trim_right bs) [
  | [] ↦ if is_space b then [] else b ∷ []
  | c ∷ cs ↦ b ∷ c ∷ cs
]

-- strings.TrimSpace
abbrev pub trim_space : Bytes → Bytes
trim_space bs = trim_right (trim_left bs)

-- strings.ToLower, in ASCII
unfoldable pub lower : Bytes → Bytes
lower [] = []
lower (b ∷ bs) = (if leb 65 b && leb b 90 then b + 32 else b) ∷ lower bs
