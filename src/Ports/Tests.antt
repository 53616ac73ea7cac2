-- ===== src/Ports/Tests.antt =====
-- A sort that keeps the promise of `sort.Slice`, and the theorem at the ranges of a node.
use mathlib.Core.List.{Permᴰ}
use mathlib.Core.List.Permᴰ
use mathlib.Core.List.Permᴰ.{nil, cons, swap, trans}
use frp_panel.Prelude.{◌≡◌, refl, false, List, [], ◌∷◌, if◌then◌else◌, arith, Bool-cases, inl, inr}
use frp_panel.Prelude.Int.{ℤ, pos, leb_ℤ, ◌≤ℤ◌}
use frp_panel.Ports.Ranges.{Range, allowed_ranges}
use frp_panel.Ports.Ranges.Merged.{Ascending, Sorted, SortsByStart, covers, excludes}
use frp_panel.Ports.Ranges.Covered.{covers-allowed_ranges}

put : Range → List Range → List Range
put r [] = r ∷ []
put r (s ∷ ss) = let rest = put r ss in if leb_ℤ r.0 s.0 then r ∷ s ∷ ss else s ∷ rest

insertion_sort : List Range → List Range
insertion_sort [] = []
insertion_sort (r ∷ rs) = put r (insertion_sort rs)

put-Permᴰ : (r : Range) (ss : List Range) → Permᴰ (r ∷ ss) (put r ss)
unfolding put
put-Permᴰ r [] = Permᴰ.refl (r ∷ [])
put-Permᴰ r (s ∷ ss) = elim (Bool-cases (leb_ℤ r.0 s.0)) [
  | inl h ↦ rw h (Permᴰ.refl (r ∷ s ∷ ss))
  | inr h ↦ rw h (trans (swap refl refl) (cons refl (put-Permᴰ r ss)))
]

put-Ascending :
    (a : ℤ) (r : Range) (ss : List Range) → a ≤ℤ r.0 → Ascending a ss → Ascending a (put r ss)
unfolding put
put-Ascending a r [] h s = (h, tt)
put-Ascending a r (s ∷ ss) h (h', up) = elim (Bool-cases (leb_ℤ r.0 s.0)) [
  | inl e ↦ rw e (h, (ground arith, up))
  | inr e ↦ rw e (h', put-Ascending s.0 r ss (ground arith) up)
]

put-Sorted : (r : Range) (ss : List Range) → Sorted ss → Sorted (put r ss)
unfolding put
put-Sorted r [] s = tt
put-Sorted r (s ∷ ss) up = elim (Bool-cases (leb_ℤ r.0 s.0)) [
  | inl e ↦ rw e (ground arith, up)
  | inr e ↦ rw e (put-Ascending s.0 r ss (ground arith) up)
]

insertion_sort-Permᴰ : (rs : List Range) → Permᴰ rs (insertion_sort rs)
unfolding insertion_sort
insertion_sort-Permᴰ [] = nil
insertion_sort-Permᴰ (r ∷ rs) =
    trans (cons refl (insertion_sort-Permᴰ rs)) (put-Permᴰ r (insertion_sort rs))

insertion_sort-Sorted : (rs : List Range) → Sorted (insertion_sort rs)
unfolding insertion_sort
insertion_sort-Sorted [] = tt
insertion_sort-Sorted (r ∷ rs) = put-Sorted r (insertion_sort rs) (insertion_sort-Sorted rs)

insertion_sort-SortsByStart : SortsByStart insertion_sort
insertion_sort-SortsByStart = record {
  permutes = insertion_sort-Permᴰ;
  sorts = insertion_sort-Sorted;
}

abbrev reserved : List Range
reserved = (pos 8443, pos 8443) ∷ (pos 7000, pos 7000) ∷ (pos 7500, pos 7400) ∷ []

-- 7450 lies in a reserved range whose ends are written the wrong way round.
covers-allowed_ranges_example :
    covers (pos 7450) (allowed_ranges insertion_sort (pos 1024) (pos 65535) reserved) ≡ false
unfolding excludes
covers-allowed_ranges_example =
    covers-allowed_ranges insertion_sort (pos 7450) (pos 1024) (pos 65535) reserved
      insertion_sort-SortsByStart
