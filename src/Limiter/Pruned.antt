-- ===== src/Limiter/Pruned.antt =====
-- What the sweep of a limiter may change.
use Prim.Native.String.{String}
use frp_panel.Prelude.{
  ℕ, ◌+◌, ◌≤◌, ◌<◌, ◌≡◌, ◌⊎◌, inl, inr, refl, ap, true, Bool-cases, Option-cases, Option, none,
  some, List, [], ◌∷◌, ◌++◌, ◌∙◌, arith, leb, length, if◌then◌else◌, length-append,
}
use frp_panel.Limiter.{
  Policy, Limiter, banned_at, lapsed, keep_recent, keep_history, prune_history, prune, maybe_prune,
  blocked, history,
}

-- the recorded times from `t0` on
unfoldable pub count_from : ℕ → List ℕ → ℕ
count_from t0 [] = 0
count_from t0 (t ∷ ts) = (if leb t0 t then 1 else 0) + count_from t0 ts

abbrev pub count_from? : ℕ → Option (List ℕ) → ℕ
count_from? t0 none = 0
count_from? t0 (some ts) = count_from t0 ts

abbrev pub length? : Option (List ℕ) → ℕ
length? none = 0
length? (some ts) = length ts

pub count_from-length : (t0 : ℕ) (ts : List ℕ) → count_from t0 ts ≤ length ts
unfolding count_from
count_from-length t0 [] = omega arith
count_from-length t0 (t ∷ ts) = ground (arith, count_from-length t0 ts)

count_from-append :
    (t0 t : ℕ) (ts : List ℕ) → t0 ≤ t → count_from t0 (ts ++ t ∷ []) ≡ count_from t0 ts + 1
unfolding count_from
count_from-append t0 t [] h = ground arith
count_from-append t0 t (u ∷ ts) h = ground (arith, count_from-append t0 t ts h)

pub length-keep_recent : (w now : ℕ) (ts : List ℕ) → length (keep_recent w now ts) ≤ length ts
unfolding keep_recent
length-keep_recent w now [] = omega arith
length-keep_recent w now (t ∷ ts) = ground (arith, length-keep_recent w now ts)

-- Nothing from `t0` on goes while `t0` is in reach.
count_from-keep_recent :
    (t0 w now : ℕ) (ts : List ℕ)
    → now ≤ t0 + w
    → count_from t0 (keep_recent w now ts) ≡ count_from t0 ts
unfolding count_from keep_recent
count_from-keep_recent t0 w now [] h = refl
count_from-keep_recent t0 w now (t ∷ ts) h = ground (arith, count_from-keep_recent t0 w now ts h)

-- What is kept is in reach.
keep_recent-all : (w now k : ℕ) (ks ts : List ℕ) → keep_recent w now ts ≡ k ∷ ks → now ≤ k + w
unfolding keep_recent
keep_recent-all w now k ks [] e = ground arith
keep_recent-all w now k ks (t ∷ ts) e = ground (arith, keep_recent-all w now k ks ts)

module _ (p : Policy) (t0 now : ℕ) where
  pub count_from-history :
      (o : Option (List ℕ))
      → now ≤ t0 + p.window
      → t0 ≤ now
      → count_from t0 (history p now o) ≡ count_from? t0 o + 1
  unfolding history keep_recent count_from
  count_from-history none h h' = count_from-append t0 now [] h'
  count_from-history (some ts) h h' =
      count_from-append t0 now (keep_recent p.window now ts) h'
      ∙ ap (λ n. n + 1) (count_from-keep_recent t0 p.window now ts h)

  pub length-history : (o : Option (List ℕ)) → length (history p now o) ≤ length? o + 1
  unfolding history keep_recent
  length-history none = omega arith
  length-history (some ts) = omega (
    arith,
    length-append (keep_recent p.window now ts) (now ∷ []),
    length-keep_recent p.window now ts,
  )

  count_from-keep_history :
      (ks ts : List ℕ) (ban : Option ℕ)
      → count_from t0 ks ≡ count_from t0 ts
      → count_from? t0 (keep_history ks now ban ts) ≡ count_from t0 ts
  unfolding keep_history count_from
  count_from-keep_history [] ts ban e = ground arith
  count_from-keep_history (k ∷ ks) ts ban e = e

  count_from-prune_history :
      (ban : Option ℕ) (o : Option (List ℕ))
      → now ≤ t0 + p.window
      → count_from? t0 (prune_history p now ban o) ≡ count_from? t0 o
  unfolding prune_history
  count_from-prune_history ban none h = refl
  count_from-prune_history ban (some ts) h =
      count_from-keep_history (keep_recent p.window now ts) ts ban
        (count_from-keep_recent t0 p.window now ts h)

  length-keep_history :
      (ks ts : List ℕ) (ban : Option ℕ)
      → length ks ≤ length ts
      → length? (keep_history ks now ban ts) ≤ length ts
  unfolding keep_history
  length-keep_history [] ts ban h = ground arith
  length-keep_history (k ∷ ks) ts ban h = h

  length-prune_history :
      (ban : Option ℕ) (o : Option (List ℕ)) → length? (prune_history p now ban o) ≤ length? o
  unfolding prune_history
  length-prune_history ban none = omega arith
  length-prune_history ban (some ts) =
      length-keep_history (keep_recent p.window now ts) ts ban (length-keep_recent p.window now ts)

module _ (p : Policy) (now : ℕ) (l : Limiter) (ip : String) where
  -- A sweep does not show: an address is let in or kept out at a later time as it would have been.
  blocked-prune :
      (later : ℕ) → now ≤ later → (blocked ip later (prune p now l)).1 ≡ (blocked ip later l).1
  unfolding blocked prune
  blocked-prune later h = ground arith

  kept-cases :
      (old ts : List ℕ) (ban : Option ℕ) (ks : List ℕ)
      → keep_history ks now ban old ≡ some ts
      → ((t : ℕ) × (rest : List ℕ) × (ks ≡ t ∷ rest) × (ts ≡ t ∷ rest)) ⊎ (banned_at now ban ≡ true)
  unfolding keep_history
  kept-cases old ts ban [] e = ground arith
  kept-cases old ts ban (k ∷ ks) e = inl (k, ks, refl, ground arith)

  -- A sweep keeps the history of an address only if it has a failure within the window or if its
  -- ban is running.
  prune-bounded :
      (ts : List ℕ)
      → (prune p now l).fails ip ≡ some ts
      → ((t : ℕ) × (rest : List ℕ) × (ts ≡ t ∷ rest) × (now ≤ t + p.window))
        ⊎ (banned_at now ((prune p now l).banned ip) ≡ true)
  unfolding prune prune_history
  prune-bounded ts e = elim (Bool-cases (lapsed now (l.banned ip))) [
    | inl h ↦ absurd (ground arith)
    | inr h ↦ elim (Option-cases (l.fails ip)) [
      | inl h' ↦ absurd (ground arith)
      | inr (old, h') ↦
          elim (kept-cases old ts (l.banned ip) (keep_recent p.window now old) (ground arith)) [
            | inl (t, rest, k, k') ↦ inl (t, rest, k', keep_recent-all p.window now t rest old k)
            | inr b ↦ inr (ground arith)
          ]
    ]
  ]

  pub fails-maybe_prune :
      (t0 : ℕ)
      → l.banned ip ≡ none
      → now ≤ t0 + p.window
      → count_from? t0 ((maybe_prune p now l).fails ip) ≡ count_from? t0 (l.fails ip)
  unfolding maybe_prune prune
  fails-maybe_prune t0 h h' =
      ground (arith, count_from-prune_history p t0 now (l.banned ip) (l.fails ip) h')

  pub length-maybe_prune : length? ((maybe_prune p now l).fails ip) ≤ length? (l.fails ip)
  unfolding maybe_prune prune
  length-maybe_prune = ground (arith, length-prune_history p 0 now (l.banned ip) (l.fails ip))

  pub banned-maybe_prune : l.banned ip ≡ none → (maybe_prune p now l).banned ip ≡ none
  unfolding maybe_prune prune
  banned-maybe_prune h = ground arith

  pub ban-maybe_prune :
      (until : ℕ)
      → l.banned ip ≡ some until
      → now < until
      → (maybe_prune p now l).banned ip ≡ some until
  unfolding maybe_prune prune
  ban-maybe_prune until h h' = ground arith
