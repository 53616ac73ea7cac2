-- ===== src/Limiter/Bans.antt =====
-- When an address is banned: after enough failures in a window, and never before.
use Prim.Native.String.{String}
use text.Mathlib.TextEquality.{eq_iff as str_eq_iff}
use text.Mathlib.Text.{◌==◌ as str_eq}
use frp_panel.Prelude.{
  ℕ, ◌+◌, ◌≤◌, ◌<◌, ◌≡◌, ◌∙◌, ◌⊎◌, inl, inr, refl, true, false, Bool-cases, none, some, List, [],
  ◌∷◌, ◌++◌, arith, leb, length, if◌then◌else◌,
}
use frp_panel.Limiter.{
  Policy, Limiter, new_limiter, history, maybe_prune, blocked, fail, success, update, lapsed,
}
use frp_panel.Limiter.Pruned.{
  count_from, count_from?, length?, count_from-length, count_from-history, length-history,
  fails-maybe_prune, length-maybe_prune, banned-maybe_prune, ban-maybe_prune,
}

-- a call of one of the three methods
pub data Call : Type 0 where
  failed : String → ℕ → Call
  succeeded : String → Call
  checked : String → ℕ → Call

unfoldable pub call : Policy → Call → Limiter → Limiter
call p (failed ip now) l = fail p ip now l
call p (succeeded ip) l = success ip l
call p (checked ip now) l = (blocked ip now l).0

unfoldable pub calls : Policy → List Call → Limiter → Limiter
calls p [] l = l
calls p (c ∷ cs) l = calls p cs (call p c l)

pub calls-append :
    (p : Policy) (cs ds : List Call) (l : Limiter)
    → calls p (cs ++ ds) l ≡ calls p ds (calls p cs l)
unfolding calls
calls-append p [] ds l = refl
calls-append p (c ∷ cs) ds l = calls-append p cs ds (call p c l)

-- The address is banned until then, or longer.
abbrev pub BannedTo : String → ℕ → Limiter → Type 0
BannedTo ip end l = (until : ℕ) × (l.banned ip ≡ some until) × (end ≤ until)

module _ (ip : String) where
  -- the failures of an address since its last success, after `n` of them
  unfoldable pub failures : ℕ → List Call → ℕ
  failures n [] = n
  failures n (failed j now ∷ cs) = failures (if str_eq j ip then n + 1 else n) cs
  failures n (succeeded j ∷ cs) = failures (if str_eq j ip then 0 else n) cs
  failures n (checked j now ∷ cs) = failures n cs

module _ (p : Policy) (ip : String) where
  -- The history is no longer than the failures, and a ban needs `max_fails` of them.
  record Within (n : ℕ) (l : Limiter) : Type 0 where
    short : length? (l.fails ip) ≤ n
    free : n < p.max_fails → l.banned ip ≡ none

  fails-fail_self :
      (now : ℕ) (l : Limiter)
      → (fail p ip now l).fails ip ≡ some (history p now ((maybe_prune p now l).fails ip))
  unfolding fail update
  fails-fail_self now l = ground (arith, str_eq_iff ip ip)

  banned-fail_self :
      (now : ℕ) (l : Limiter)
      → (fail p ip now l).banned ip ≡ (
          if leb p.max_fails (length (history p now ((maybe_prune p now l).fails ip)))
          then some (now + p.ban_dur)
          else (maybe_prune p now l).banned ip)
  unfolding fail update
  banned-fail_self now l = ground (arith, str_eq_iff ip ip)

  fails-fail_other :
      (j : String) (now : ℕ) (l : Limiter)
      → str_eq j ip ≡ false
      → (fail p j now l).fails ip ≡ (maybe_prune p now l).fails ip
  unfolding fail update
  fails-fail_other j now l h = rw h refl

  banned-fail_other :
      (j : String) (now : ℕ) (l : Limiter)
      → str_eq j ip ≡ false
      → (fail p j now l).banned ip ≡ (maybe_prune p now l).banned ip
  unfolding fail update
  banned-fail_other j now l h = ground arith

  Within-fail_self : (n now : ℕ) (l : Limiter) → Within n l → Within (n + 1) (fail p ip now l)
  Within-fail_self n now l w = record {
    short = ground (
      arith,
      fails-fail_self now l,
      length-history p 0 now ((maybe_prune p now l).fails ip),
      length-maybe_prune p now l ip,
      w.short,
    );
    free = λ h. ground (
      arith,
      banned-fail_self now l,
      length-history p 0 now ((maybe_prune p now l).fails ip),
      length-maybe_prune p now l ip,
      w.short,
      banned-maybe_prune p now l ip (w.free (omega arith)),
    );
  }

  Within-fail_other :
      (n now : ℕ) (j : String) (l : Limiter)
      → str_eq j ip ≡ false
      → Within n l
      → Within n (fail p j now l)
  Within-fail_other n now j l h w = record {
    short = rw (fails-fail_other j now l h) (omega (arith, length-maybe_prune p now l ip, w.short));
    free = λ h'. rw (banned-fail_other j now l h) (banned-maybe_prune p now l ip (w.free h'));
  }

  Within-success_self : (n : ℕ) (l : Limiter) → Within 0 (success ip l)
  unfolding success update
  Within-success_self n l = record {
    short = ground (arith, str_eq_iff ip ip);
    free = λ h. ground (arith, str_eq_iff ip ip);
  }

  Within-success_other :
      (n : ℕ) (j : String) (l : Limiter) → str_eq j ip ≡ false → Within n l → Within n (success j l)
  unfolding success update
  Within-success_other n j l h w = record { short = rw h w.short; free = λ h'. rw h (w.free h') }

  -- A success loosens every bound.
  Within-blocked :
      (n : ℕ) (j : String) (now : ℕ) (l : Limiter) → Within n l → Within n (blocked j now l).0
  unfolding blocked success update
  Within-blocked n j now l w = record {
    short = ground (arith, w.short);
    free = λ h. ground (arith, w.free h);
  }

  Within-calls :
      (cs : List Call) (n : ℕ) (l : Limiter) → Within n l → Within (failures ip n cs) (calls p cs l)
  unfolding failures calls call
  Within-calls [] n l w = w
  Within-calls (failed j now ∷ cs) n l w = elim (Bool-cases (str_eq j ip)) [
    | inl h ↦
        rw (h, (str_eq_iff j ip).0 h)
          (Within-calls cs (n + 1) (fail p ip now l) (Within-fail_self n now l w))
    | inr h ↦ rw h (Within-calls cs n (fail p j now l) (Within-fail_other n now j l h w))
  ]
  Within-calls (succeeded j ∷ cs) n l w = elim (Bool-cases (str_eq j ip)) [
    | inl h ↦
        rw (h, (str_eq_iff j ip).0 h) (Within-calls cs 0 (success ip l) (Within-success_self n l))
    | inr h ↦ rw h (Within-calls cs n (success j l) (Within-success_other n j l h w))
  ]
  Within-calls (checked j now ∷ cs) n l w =
      Within-calls cs n (blocked j now l).0 (Within-blocked n j now l w)

  new_limiter-Within : Within 0 new_limiter
  unfolding new_limiter
  new_limiter-Within = record { short = omega arith; free = λ h. refl }

  -- Whatever calls a new limiter gets: an address that has failed fewer than `max_fails` times since
  -- its last success is not blocked.
  blocked_only_after :
      (cs : List Call) (now : ℕ)
      → failures ip 0 cs < p.max_fails
      → (blocked ip now (calls p cs new_limiter)).1 ≡ false
  unfolding blocked
  blocked_only_after cs now h =
      ground (arith, (Within-calls cs 0 new_limiter new_limiter-Within).free h)

  -- The calls fall into the window that starts at `t0`, before a ban from then on ends, and the
  -- address has no success.
  abbrev pub InWindow : ℕ → List Call → Type 0
  InWindow t0 [] = Unit {0}
  InWindow t0 (failed j now ∷ cs) =
      (t0 ≤ now) × (now ≤ t0 + p.window) × (now < t0 + p.ban_dur) × InWindow t0 cs
  InWindow t0 (succeeded j ∷ cs) = (str_eq j ip ≡ false) × InWindow t0 cs
  InWindow t0 (checked j now ∷ cs) = (now < t0 + p.ban_dur) × InWindow t0 cs

  -- Banned, or on the way to it.
  abbrev Nearing : ℕ → ℕ → Limiter → Type 0
  Nearing t0 k l =
      ((until : ℕ) × (l.banned ip ≡ some until) × (t0 + p.ban_dur ≤ until))
      ⊎ ((l.banned ip ≡ none) × (k ≤ count_from? t0 (l.fails ip)) × (k < p.max_fails))

  Nearing-fail_self :
      (t0 k now : ℕ) (l : Limiter)
      → t0 ≤ now
      → now ≤ t0 + p.window
      → now < t0 + p.ban_dur
      → Nearing t0 k l
      → Nearing t0 (k + 1) (fail p ip now l)
  Nearing-fail_self t0 k now l h0 h1 h2 near = elim (Bool-cases (leb p.max_fails (length kept))) [
    | inl h ↦ inl (now + p.ban_dur, banned-fail_self now l ∙ rw h refl, omega arith)
    | inr h ↦ elim near [
      | inl (until, e, b) ↦ inl (
        until,
        banned-fail_self now l ∙ rw h (ban-maybe_prune p now l ip until e (omega arith)),
        b,
      )
      | inr (e, c, m) ↦
          let grown : k + 1 ≤ count_from t0 kept = omega (
            arith,
            count_from-history p t0 now ((maybe_prune p now l).fails ip) h1 h0,
            fails-maybe_prune p now l ip t0 e h1,
          ) in
          inr (
            banned-fail_self now l ∙ rw h (banned-maybe_prune p now l ip e),
            rw (fails-fail_self now l) grown,
            ground (arith, count_from-length t0 kept),
          )
    ]
  ]
    where
      kept : List ℕ
      kept = history p now ((maybe_prune p now l).fails ip)

  Nearing-fail_other :
      (t0 k now : ℕ) (j : String) (l : Limiter)
      → str_eq j ip ≡ false
      → now ≤ t0 + p.window
      → now < t0 + p.ban_dur
      → Nearing t0 k l
      → Nearing t0 k (fail p j now l)
  Nearing-fail_other t0 k now j l h h1 h2 (inl (until, e, b)) =
      inl (until, banned-fail_other j now l h ∙ ban-maybe_prune p now l ip until e (omega arith), b)
  Nearing-fail_other t0 k now j l h h1 h2 (inr (e, c, m)) = inr (
    banned-fail_other j now l h ∙ banned-maybe_prune p now l ip e,
    rw (fails-fail_other j now l h) (omega (arith, fails-maybe_prune p now l ip t0 e h1)),
    m,
  )

  Nearing-success_other :
      (t0 k : ℕ) (j : String) (l : Limiter)
      → str_eq j ip ≡ false
      → Nearing t0 k l
      → Nearing t0 k (success j l)
  unfolding success update
  Nearing-success_other t0 k j l h near = rw h near

  Nearing-blocked :
      (t0 k now : ℕ) (j : String) (l : Limiter)
      → now < t0 + p.ban_dur
      → Nearing t0 k l
      → Nearing t0 k (blocked j now l).0
  unfolding blocked success update
  Nearing-blocked t0 k now j l h near = elim (Bool-cases (lapsed now (l.banned j))) [
    | inl out ↦ elim (Bool-cases (str_eq j ip)) [
      | inl same ↦ absurd (elim near [
        | inl (until, e, b) ↦ ground (arith, str_eq_iff j ip)
        | inr (e, c, m) ↦ ground (arith, str_eq_iff j ip)
      ])
      | inr other ↦ rw (out, other) near
    ]
    | inr no_ban ↦ rw no_ban near
  ]

  Nearing-calls :
      (t0 : ℕ) (cs : List Call) (k : ℕ) (l : Limiter)
      → InWindow t0 cs
      → Nearing t0 k l
      → Nearing t0 (failures ip k cs) (calls p cs l)
  unfolding failures calls call
  Nearing-calls t0 [] k l h near = near
  Nearing-calls t0 (failed j now ∷ cs) k l (h0, h1, h2, hs) near = elim (Bool-cases (str_eq j ip)) [
    | inl h ↦
        rw (h, (str_eq_iff j ip).0 h)
          (Nearing-calls t0 cs (k + 1) (fail p ip now l) hs
            (Nearing-fail_self t0 k now l h0 h1 h2 near))
    | inr h ↦
        rw h
          (Nearing-calls t0 cs k (fail p j now l) hs (Nearing-fail_other t0 k now j l h h1 h2 near))
  ]
  Nearing-calls t0 (succeeded j ∷ cs) k l (h, hs) near =
      rw h (Nearing-calls t0 cs k (success j l) hs (Nearing-success_other t0 k j l h near))
  Nearing-calls t0 (checked j now ∷ cs) k l (h, hs) near =
      Nearing-calls t0 cs k (blocked j now l).0 hs (Nearing-blocked t0 k now j l h near)

  -- Enough failures in the window ban the address.
  pub banned_after :
      (t0 : ℕ) (cs : List Call) (l : Limiter)
      → l.banned ip ≡ none
      → 0 < p.max_fails
      → InWindow t0 cs
      → p.max_fails ≤ failures ip 0 cs
      → BannedTo ip (t0 + p.ban_dur) (calls p cs l)
  banned_after t0 cs l free some_fails h enough =
      elim (Nearing-calls t0 cs 0 l h (inr (free, omega arith, some_fails))) [
        | inl ban ↦ ban
        | inr (e, c, m) ↦ absurd (omega arith)
      ]

  -- From a limiter without a ban of the address on, whatever calls come within a window and before
  -- a ban from its start would end: if the address has `max_fails` failures among them and no
  -- success, it is blocked until then.
  pub blocked_after :
      (t0 now : ℕ) (cs : List Call) (l : Limiter)
      → l.banned ip ≡ none
      → 0 < p.max_fails
      → InWindow t0 cs
      → p.max_fails ≤ failures ip 0 cs
      → now < t0 + p.ban_dur
      → (blocked ip now (calls p cs l)).1 ≡ true
  unfolding blocked
  blocked_after t0 now cs l free some_fails h enough before =
      elim (Nearing-calls t0 cs 0 l h (inr (free, omega arith, some_fails))) [
        | inl (until, e, b) ↦ ground arith
        | inr (e, c, m) ↦ absurd (omega arith)
      ]

module _ (ip : String) (end : ℕ) where
  -- a call before the ban ends, of another address or a check
  abbrev pub SparesBan : Call → Type 0
  SparesBan (failed j now) = (str_eq j ip ≡ false) × (now < end)
  SparesBan (succeeded j) = str_eq j ip ≡ false
  SparesBan (checked j now) = now < end

  abbrev pub AllSpare : List Call → Type 0
  AllSpare [] = Unit {0}
  AllSpare (c ∷ cs) = SparesBan c × AllSpare cs

module _ (p : Policy) (ip : String) (end : ℕ) where
  blocked_keeps :
      (j : String) (now : ℕ) (l : Limiter)
      → now < end
      → BannedTo ip end l
      → BannedTo ip end (blocked j now l).0
  unfolding blocked success update
  blocked_keeps j now l h (until, e, b) = elim (Bool-cases (lapsed now (l.banned j))) [
    | inl out ↦ elim (Bool-cases (str_eq j ip)) [
      | inl same ↦ absurd (ground (arith, str_eq_iff j ip))
      | inr other ↦ rw (out, other) (until, e, b)
    ]
    | inr no_ban ↦ rw no_ban (until, e, b)
  ]

  call-BannedTo :
      (c : Call) (l : Limiter)
      → SparesBan ip end c
      → BannedTo ip end l
      → BannedTo ip end (call p c l)
  unfolding call success update
  call-BannedTo (failed j now) l (h, h') (until, e, b) = (
    until,
    banned-fail_other p ip j now l h ∙ ban-maybe_prune p now l ip until e (omega arith),
    b,
  )
  call-BannedTo (succeeded j) l h (until, e, b) = (until, rw h e, b)
  call-BannedTo (checked j now) l h b = blocked_keeps j now l h b

  -- A ban outlasts the calls of others.
  pub calls-BannedTo :
      (cs : List Call) (l : Limiter)
      → AllSpare ip end cs
      → BannedTo ip end l
      → BannedTo ip end (calls p cs l)
  unfolding calls
  calls-BannedTo [] l h b = b
  calls-BannedTo (c ∷ cs) l (h, hs) b = calls-BannedTo cs (call p c l) hs (call-BannedTo c l h b)

  pub blocked-BannedTo :
      (now : ℕ) (l : Limiter) → now < end → BannedTo ip end l → (blocked ip now l).1 ≡ true
  unfolding blocked
  blocked-BannedTo now l h (until, e, b) = ground arith
