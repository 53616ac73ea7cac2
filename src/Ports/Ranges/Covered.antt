-- ===== src/Ports/Ranges/Covered.antt =====
-- The ranges that `AllowedRanges` returns cover what is asked for and not excluded.
use frp_panel.Prelude.{
  ◌≡◌, refl, sym, ap, ap₂, ◌∙◌, Bool, true, false, ◌&&◌, ◌||◌, not, List, [], ◌∷◌, if◌then◌else◌,
  arith, Bool-cases, inl, inr,
}
use frp_panel.Prelude.Int.{ℤ, pos, ◌+ℤ◌, ◌-ℤ◌, ltb_ℤ, leb_ℤ, ◌≤ℤ◌, ◌<ℤ◌, +ℤ_parts, -ℤ_parts}
use frp_panel.Ports.Ranges.{Range, normalize, merge_from, merge, gaps, allowed_ranges}
use frp_panel.Ports.Ranges.Merged.{
  within, covers, excludes, Ascending, Sorted, SortsByStart, Starts, covers-normalize,
  Starts-normalize, covers-perm, Starts-perm, Ascending-down, Ascending-Sorted, covers-before,
  covers-merge_from,
}

past-start :
    (x cur : ℤ) (e : Range)
    → leb_ℤ (if ltb_ℤ cur (e.1 +ℤ pos 1) then e.1 +ℤ pos 1 else cur) x
      ≡ (leb_ℤ cur x && ltb_ℤ e.1 x)
past-start x cur e = ground (arith, +ℤ_parts e.1 (pos 1))

within-gap : (x cur : ℤ) (e : Range) → within x (cur, e.0 -ℤ pos 1) ≡ (leb_ℤ cur x && ltb_ℤ x e.0)
within-gap x cur e = ground (arith, -ℤ_parts e.0 (pos 1))

no_gap : (x cur : ℤ) (e : Range) → ltb_ℤ cur e.0 ≡ false → within x (cur, e.0 -ℤ pos 1) ≡ false
no_gap x cur e h = ground (arith, -ℤ_parts e.0 (pos 1))

gap_bools :
    (from below past to c : Bool)
    → (below ≡ true → to ≡ true)
    → (below ≡ true → c ≡ false)
    → (from && below || (from && past && to && not c))
      ≡ (from && to && not (not below && not past || c))
gap_bools from below past to c h h' = ground arith

leb-not : (x a : ℤ) → leb_ℤ a x ≡ not (ltb_ℤ x a)
leb-not x a = ground arith

-- one turn of the last loop, at a port that the later ranges cover or do not
gap_step :
    (x cur hi : ℤ) (e : Range) (c : Bool)
    → e.0 ≤ℤ hi
    → (x <ℤ e.0 → c ≡ false)
    → (within x (cur, e.0 -ℤ pos 1)
        || (leb_ℤ (if ltb_ℤ cur (e.1 +ℤ pos 1) then e.1 +ℤ pos 1 else cur) x
            && leb_ℤ x hi
            && not c))
      ≡ (leb_ℤ cur x && leb_ℤ x hi && not (within x e || c))
gap_step x cur hi e c h before =
    ap₂ (λ w b. w || (b && leb_ℤ x hi && not c)) (within-gap x cur e) (past-start x cur e)
    ∙ gap_bools (leb_ℤ cur x) (ltb_ℤ x e.0) (ltb_ℤ e.1 x) (leb_ℤ x hi) c (λ b. ground arith)
        (λ b. before (ground arith))
    ∙ ap₂ (λ u v. leb_ℤ cur x && leb_ℤ x hi && not (u && v || c)) (sym (leb-not x e.0))
        (sym (leb-not e.1 x))

covers-gaps :
    (x lo hi : ℤ) (ms : List Range) (cur : ℤ)
    → Sorted ms
    → Starts lo hi ms
    → covers x (gaps hi cur ms) ≡ (leb_ℤ cur x && leb_ℤ x hi && not (covers x ms))
unfolding covers gaps
covers-gaps x lo hi [] cur s h = ground arith
covers-gaps x lo hi (e ∷ es) cur s h = elim (Bool-cases (ltb_ℤ cur e.0)) [
  | inl gap ↦
      rw gap
        (ap (λ b. within x (cur, e.0 -ℤ pos 1) || b) (covers-gaps x lo hi es cur' rest h.2) ∙ step)
  | inr none_here ↦ rw none_here (
      covers-gaps x lo hi es cur' rest h.2
      ∙ sym (ap (λ b. b || then_not) (no_gap x cur e none_here))
      ∙ step)
]
  where
    cur' : ℤ
    cur' = if ltb_ℤ cur (e.1 +ℤ pos 1) then e.1 +ℤ pos 1 else cur

    then_not : Bool
    then_not = leb_ℤ cur' x && leb_ℤ x hi && not (covers x es)

    rest : Sorted es
    rest = Ascending-Sorted e.0 es s

    step :
        (within x (cur, e.0 -ℤ pos 1) || then_not)
        ≡ (leb_ℤ cur x && leb_ℤ x hi && not (within x e || covers x es))
    step = gap_step x cur hi e (covers x es) h.1 (covers-before x e.0 es s)

Ascending-merge_from :
    (a : ℤ) (es : List Range) (cur : Range)
    → a ≤ℤ cur.0
    → Ascending cur.0 es
    → Ascending a (merge_from cur es)
unfolding merge_from
Ascending-merge_from a [] cur h s = (h, tt)
Ascending-merge_from a (e ∷ es) cur h s = elim (Bool-cases (leb_ℤ e.0 (cur.1 +ℤ pos 1))) [
  | inl joins ↦ rw joins (Ascending-merge_from a es _ h (Ascending-down cur.0 e.0 es s.0 s.1))
  | inr apart ↦ rw apart (h, Ascending-merge_from cur.0 es e s.0 s.1)
]

Starts-merge_from :
    (lo hi : ℤ) (es : List Range) (cur : Range)
    → Starts lo hi (cur ∷ es)
    → Starts lo hi (merge_from cur es)
unfolding merge_from
Starts-merge_from lo hi [] cur h = h
Starts-merge_from lo hi (e ∷ es) cur h = elim (Bool-cases (leb_ℤ e.0 (cur.1 +ℤ pos 1))) [
  | inl joins ↦ rw joins (Starts-merge_from lo hi es _ (h.0, h.1, h.2.2))
  | inr apart ↦ rw apart (h.0, h.1, Starts-merge_from lo hi es e h.2)
]

covers-merge : (x : ℤ) (es : List Range) → Sorted es → covers x (merge es) ≡ covers x es
unfolding covers merge
covers-merge x [] s = refl
covers-merge x (e ∷ es) s = covers-merge_from x es e s

Sorted-merge : (es : List Range) → Sorted es → Sorted (merge es)
unfolding merge
Sorted-merge [] s = tt
Sorted-merge (e ∷ es) s =
    Ascending-Sorted e.0 (merge_from e es) (Ascending-merge_from e.0 es e (omega arith) s)

Starts-merge : (lo hi : ℤ) (es : List Range) → Starts lo hi es → Starts lo hi (merge es)
unfolding merge
Starts-merge lo hi [] h = tt
Starts-merge lo hi (e ∷ es) h = Starts-merge_from lo hi es e h

empty_range : (x lo hi : ℤ) → ltb_ℤ hi lo ≡ true → within x (lo, hi) ≡ false
empty_range x lo hi h = ground arith

-- `w && not (w && e)` is `w && not e`
drop_twice : (w e : Bool) → (w && not (w && e)) ≡ (w && not e)
drop_twice w e = ground arith

-- A port is in one of the ranges exactly if it lies in [lo, hi] and in none of the excluded ranges,
-- whichever end of these comes first.
pub covers-allowed_ranges :
    (sort : List Range → List Range) (x lo hi : ℤ) (es : List Range)
    → SortsByStart sort
    → covers x (allowed_ranges sort lo hi es) ≡ (within x (lo, hi) && not (excludes x es))
unfolding allowed_ranges covers
covers-allowed_ranges sort x lo hi es srt = elim (Bool-cases (ltb_ℤ hi lo)) [
  | inl empty ↦ rw (empty, empty_range x lo hi empty) nothing
  | inr some_ports ↦ rw some_ports (
      covers-gaps x lo hi (merge (sort kept)) lo (Sorted-merge (sort kept) (srt.sorts kept)) (
        Starts-merge lo hi (sort kept) (
          Starts-perm lo hi kept (sort kept) (srt.permutes kept)
            (Starts-normalize lo hi es (ground arith))))
      ∙ ap (λ b. within x (lo, hi) && not b) cover
      ∙ drop_twice (within x (lo, hi)) (excludes x es))
]
  where
    kept : List Range
    kept = normalize lo hi es

    nothing : covers x [] ≡ false
    nothing = refl

    cover : covers x (merge (sort kept)) ≡ (within x (lo, hi) && excludes x es)
    cover =
        covers-merge x (sort kept) (srt.sorts kept)
        ∙ sym (covers-perm x kept (sort kept) (srt.permutes kept))
        ∙ covers-normalize x lo hi es
