-- ===== src/Metrics/Ring/Refine.antt =====
-- A ring holds the last samples that were added, as many as its capacity.
use native.Mathlib.Decide.{dec_lt}
use native.Mathlib.Nat.{mod-eq_of_lt, mod-eq-sub-mod, mod-add-mod, mod-lt}
use native.Mathlib.Numerals.{add-one}
use frp_panel.Prelude.{
  ℕ, zero, suc, ◌+◌, ◌-◌, ◌%◌, ◌≤◌, ◌<◌, ◌≡◌, ◌≢◌, sym, subst, ap, ap₂, ◌∙◌, List, [], ◌∷◌, ◌++◌,
  arith, length, set, drop, length-set, length-replicate, length-append, true, false, append-nil,
  append_assoc, if◌then◌else◌, Bool-cases, inl, inr, ltb,
}
use frp_panel.Prelude.Int.{ℤ, pos, pos_part, ltb_ℤ}
use frp_panel.Metrics.Float.{Floats}
use frp_panel.Metrics.Ring.{Sample, Ring, zero_sample, new_ring, add, collect, snapshot}
use frp_panel.Metrics.Ring.Window.{
  mod-ne, get_or-set_self, length-collect, collect-suc, collect_shift, collect-set,
}
use frp_panel.Metrics.Ring.Round.{
  keep_last, keep_last-keep_last, drop-append, go-round, same-mod-ne,
}

pub record IsValid {F : Floats} (r : Ring F) : Type 0 where
  pub room : 0 < length r.buf
  pub head_in : r.head < length r.buf
  pub size_in : r.size ≤ length r.buf

module _ (F : Floats) where
  new_ring-IsValid : (c : ℤ) → IsValid (new_ring F c)
  unfolding new_ring
  new_ring-IsValid c =
      ground
        (arith, length-replicate 1 (zero_sample F), length-replicate (pos_part c) (zero_sample F))

  add-IsValid : (r : Ring F) (s : Sample F) → IsValid r → IsValid (add F r s)
  unfolding add
  add-IsValid r s v = ground (arith, length-set r.buf r.head s)

  start : Ring F → ℕ
  start r = (r.head + length r.buf - r.size) % length r.buf

  -- The ring is full: the oldest sample goes.
  collect_full :
      (buf : List (Sample F)) (h n : ℕ) (s : Sample F)
      → suc n ≡ length buf
      → h < length buf
      → collect F (set buf h s) ((h + 1) % length buf) 0 (suc n) ≡ collect F buf h 1 n ++ s ∷ []
  collect_full buf h n s e hh =
      collect-suc F (set buf h s) ((h + 1) % length buf) 0 n h (rw (length-set buf h s) back)
      ∙ ap₂ (λ l x. l ++ x ∷ [])
          (collect-set F buf s h ((h + 1) % length buf) 0 n away ∙ collect_shift F buf h 0 n)
          (get_or-set_self buf h s (zero_sample F) hh)
    where
      back : h ≡ ((h + 1) % length buf + (0 + n)) % length buf
      back =
          rw (mod-add-mod (h + 1) (length buf) (0 + n))
            (go-round (h + 1 + (0 + n)) (length buf) h hh (inr (omega arith)))

      away : (j : ℕ) → 0 ≤ j → j < 0 + n → h ≢ ((h + 1) % length buf + j) % length buf
      away j p q = rw (mod-add-mod (h + 1) (length buf) j) (λ c.
          mod-ne (length buf) h (suc j) hh (omega arith) (omega arith)
            (ap (λ t. t % length buf) (omega arith) ∙ sym c))

  -- There is room: the window grows.
  collect_room :
      (buf : List (Sample F)) (st h n : ℕ) (s : Sample F)
      → n < length buf
      → st < length buf
      → h ≡ (st + n) % length buf
      → h < length buf
      → collect F (set buf h s) st 0 (suc n) ≡ collect F buf st 0 n ++ s ∷ []
  collect_room buf st h n s hn hst e hh =
      collect-suc F (set buf h s) st 0 n h
        (rw (length-set buf h s) (e ∙ ap (λ t. (st + t) % length buf) (omega arith)))
      ∙ ap₂ (λ l x. l ++ x ∷ []) (collect-set F buf s h st 0 n away)
          (get_or-set_self buf h s (zero_sample F) hh)
    where
      away : (j : ℕ) → 0 ≤ j → j < 0 + n → h ≢ (st + j) % length buf
      away j p q = λ c. same-mod-ne st n j (length buf) hst q hn (sym e ∙ c)

  -- where the next sample goes, counted from the oldest
  start-head : (m h n : ℕ) → h < m → n ≤ m → h ≡ ((h + m - n) % m + n) % m
  start-head m h n hh hn =
      rw (mod-add-mod (h + m - n) m n) (go-round (h + m - n + n) m h hh (inr (omega arith)))

  -- the oldest sample stays where it is while there is room
  start_room : (m h n : ℕ) → h < m → n < m → ((h + 1) % m + m - (n + 1)) % m ≡ (h + m - n) % m
  start_room m h n hh hn = elim (dec_lt (h + 1) m) [
    | yes p ↦ rw (mod-eq_of_lt p) (ap (λ t. t % m) (omega arith))
    | no p ↦
        let e : h + 1 ≡ m = omega arith in
        rw (sym (go-round (h + 1) m 0 (omega arith) (inr (omega arith)))) (
          sym
            (mod-eq-sub-mod {n = h + m - n} {m = m} (omega arith) ∙ ap (λ t. t % m) (omega arith)))
  ]

  room-case :
      (r : Ring F) (s : Sample F)
      → IsValid r
      → ltb r.size (length r.buf) ≡ true
      → snapshot F (add F r s) ≡ snapshot F r ++ s ∷ []
  unfolding snapshot add
  room-case r s v h =
      rw
        (
          h,
          length-set r.buf r.head s,
          start_room (length r.buf) r.head r.size v.head_in (ground arith),
          add-one,
        )
        (collect_room r.buf _ r.head r.size s (ground arith) (mod-lt _ v.room)
          (start-head (length r.buf) r.head r.size v.head_in v.size_in) v.head_in)

  -- at `size = len(buf)` the window starts at `head`
  full_window :
      (buf : List (Sample F)) (h size : ℕ) (s : Sample F)
      → size ≡ length buf
      → h < length buf
      → collect F (set buf h s) (((h + 1) % length buf + length buf - size) % length buf) 0 size
        ≡ drop 1 (collect F buf ((h + length buf - size) % length buf) 0 size) ++ s ∷ []
  unfolding collect
  full_window buf h zero s e hh = absurd (omega arith)
  full_window buf h (suc n) s e hh =
      subst
        (λ t. collect F (set buf h s) t 0 (suc n) ≡ drop 1 (collect F buf was 0 (suc n)) ++ s ∷ [])
        first
        (subst
          (λ t.
            collect F (set buf h s) ((h + 1) % m) 0 (suc n)
            ≡ drop 1 (collect F buf t 0 (suc n)) ++ s ∷ [])
          second (collect_full buf h n s e hh))
    where
      m : ℕ
      m = length buf

      was : ℕ
      was = (h + m - suc n) % m

      first : (h + 1) % m ≡ ((h + 1) % m + m - suc n) % m
      first =
          go-round ((h + 1) % m + m - suc n) m ((h + 1) % m) (mod-lt (h + 1) (omega arith))
            (inl (omega arith))

      second : h ≡ (h + m - suc n) % m
      second = go-round (h + m - suc n) m h hh (inl (omega arith))

  full-case :
      (r : Ring F) (s : Sample F)
      → IsValid r
      → ltb r.size (length r.buf) ≡ false
      → snapshot F (add F r s) ≡ drop 1 (snapshot F r) ++ s ∷ []
  unfolding snapshot add
  full-case r s v h =
      rw (h, length-set r.buf r.head s) (full_window r.buf r.head r.size s (ground arith) v.head_in)

  length-snapshot : (r : Ring F) → length (snapshot F r) ≡ r.size
  unfolding snapshot
  length-snapshot r = length-collect F r.buf _ 0 r.size

  -- One more sample.
  snapshot-add :
      (r : Ring F) (s : Sample F)
      → IsValid r
      → snapshot F (add F r s) ≡ keep_last (length r.buf) (snapshot F r ++ s ∷ [])
  snapshot-add r s v = elim (Bool-cases (ltb r.size (length r.buf))) [
    | inl h ↦
        room-case r s v h
        ∙ ap (λ k. drop k (snapshot F r ++ s ∷ [])) {x = 0}
            {y = length (snapshot F r ++ s ∷ []) - length r.buf}
            (ground (arith, length-append (snapshot F r) (s ∷ []), length-snapshot r))
    | inr h ↦
        full-case r s v h
        ∙ sym (drop-append 1 (snapshot F r) (s ∷ []) (ground (arith, length-snapshot r)))
        ∙ ap (λ k. drop k (snapshot F r ++ s ∷ [])) {x = 1}
            {y = length (snapshot F r ++ s ∷ []) - length r.buf}
            (ground (arith, length-append (snapshot F r) (s ∷ []), length-snapshot r))
  ]

  -- `Add` for each sample of a stream.
  abbrev pub add_all : Ring F → List (Sample F) → Ring F
  add_all r [] = r
  add_all r (s ∷ ss) = add_all (add F r s) ss

  length-buf-add : (r : Ring F) (s : Sample F) → length (add F r s).buf ≡ length r.buf
  unfolding add
  length-buf-add r s = length-set r.buf r.head s

  snapshot-add_all_from :
      (r : Ring F) (ss : List (Sample F))
      → IsValid r
      → snapshot F (add_all r ss) ≡ keep_last (length r.buf) (snapshot F r ++ ss)
  snapshot-add_all_from r [] v = rw (append-nil (snapshot F r)) (
      sym (
        ap (λ k. drop k (snapshot F r)) {x = length (snapshot F r) - length r.buf} {y = 0}
          (ground (arith, length-snapshot r))))
  snapshot-add_all_from r (s ∷ ss) v =
      snapshot-add_all_from (add F r s) ss (add-IsValid r s v)
      ∙ rw (length-buf-add r s, snapshot-add r s v)
          (keep_last-keep_last (length r.buf) (snapshot F r ++ s ∷ []) ss
            ∙ ap (keep_last (length r.buf)) (append_assoc (snapshot F r) (s ∷ []) ss))

  fresh :
      (capacity : ℤ) (ss : List (Sample F))
      → keep_last (length (new_ring F capacity).buf) (snapshot F (new_ring F capacity) ++ ss)
        ≡ keep_last (if ltb_ℤ capacity (pos 1) then 1 else pos_part capacity) ss
  unfolding new_ring snapshot collect
  fresh capacity ss = ap (λ n. keep_last n ss) (length-replicate _ (zero_sample F))

  -- After any samples, a snapshot of a new ring is the last of them, oldest first: as many as the
  -- capacity (1 for a capacity below 1).
  pub snapshot-add_all :
      (capacity : ℤ) (ss : List (Sample F))
      → snapshot F (add_all (new_ring F capacity) ss)
        ≡ keep_last (if ltb_ℤ capacity (pos 1) then 1 else pos_part capacity) ss
  snapshot-add_all capacity ss =
      snapshot-add_all_from (new_ring F capacity) ss (new_ring-IsValid capacity) ∙ fresh capacity ss
