-- ===== src/Ports/Ranges.antt =====
-- `AllowedRanges` of internal/frpcfg/frpcfg.go. A range is its first and its last port. The sums
-- with 1 stay within int64 for every `hi` below the largest int64.
pub mod Merged
pub mod Covered
use frp_panel.Prelude.{Bool, ◌&&◌, ◌||◌, List, [], ◌∷◌, ◌++◌, if◌then◌else◌}
use frp_panel.Prelude.Int.{ℤ, pos, ◌+ℤ◌, ◌-ℤ◌, ltb_ℤ, leb_ℤ}

abbrev pub Range : Type 0
Range = ℤ × ℤ

-- `if a > b { a, b = b, a }`
unfoldable pub order : Range → Range
order e = if ltb_ℤ e.1 e.0 then (e.1, e.0) else e

-- an ordered range, cut to [lo, hi]; `b < lo || a > hi` are left out
unfoldable pub clamp : ℤ → ℤ → Range → Range
clamp lo hi e = (if ltb_ℤ e.0 lo then lo else e.0, if ltb_ℤ hi e.1 then hi else e.1)

abbrev outside : ℤ → ℤ → Range → Bool
outside lo hi e = ltb_ℤ e.1 lo || ltb_ℤ hi e.0

-- the first loop
unfoldable pub normalize : ℤ → ℤ → List Range → List Range
normalize lo hi [] = []
normalize lo hi (e ∷ es) =
    let rest = normalize lo hi es in
    if outside lo hi (order e) then rest else clamp lo hi (order e) ∷ rest

-- the loop over `ex` once `merged` has a last entry, which is `cur`
unfoldable pub merge_from : Range → List Range → List Range
merge_from cur [] = cur ∷ []
merge_from cur (e ∷ es) =
    let joins = leb_ℤ e.0 (cur.1 +ℤ pos 1) in
    let next : Range = if joins then (cur.0, if ltb_ℤ cur.1 e.1 then e.1 else cur.1) else e in
    let rest = merge_from next es in if joins then rest else cur ∷ rest

unfoldable pub merge : List Range → List Range
merge [] = []
merge (e ∷ es) = merge_from e es

-- the last loop, and what follows it
unfoldable pub gaps : ℤ → ℤ → List Range → List Range
gaps hi cur [] = if leb_ℤ cur hi then (cur, hi) ∷ [] else []
gaps hi cur (e ∷ es) =
    let rest = gaps hi (if ltb_ℤ cur (e.1 +ℤ pos 1) then e.1 +ℤ pos 1 else cur) es in
    if ltb_ℤ cur e.0 then (cur, e.0 -ℤ pos 1) ∷ rest else rest

-- `sort.Slice` with the comparison of the first ports is an argument.
unfoldable pub allowed_ranges : (List Range → List Range) → ℤ → ℤ → List Range → List Range
allowed_ranges sort lo hi excludes =
    if ltb_ℤ hi lo then [] else gaps hi lo (merge (sort (normalize lo hi excludes)))
