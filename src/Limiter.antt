-- ===== src/Limiter.antt =====
-- `authLimiter` of internal/agent/ratelimit.go and `loginLimiter` of internal/panel/auth.go, which
-- have the same code and other constants. An instant is the number of nanoseconds since 1970. A map
-- is a function, and what a loop over a map does to a key depends on that key alone.
pub mod Pruned
pub mod Bans
mod Tests
use Prim.Native.String.{String}
use text.Mathlib.Text.{◌==◌ as str_eq}
use frp_panel.Prelude.{
  ℕ, ◌+◌, ◌*◌, Bool, true, false, Option, none, some, List, [], ◌∷◌, ◌++◌, if◌then◌else◌, ltb, leb,
  length,
}

-- the fields that are never assigned
pub record Policy : Type 0 where
  pub max_fails : ℕ
  pub window : ℕ
  pub ban_dur : ℕ

pub record Limiter : Type 0 where
  pub fails : String → Option (List ℕ)
  pub banned : String → Option ℕ
  pub last_prune : ℕ

abbrev pub second : ℕ
second = 1000000000

abbrev pub auth_policy : Policy
auth_policy = record { max_fails = 10; window = 60 * second; ban_dur = 600 * second }

abbrev pub login_policy : Policy
login_policy = record { max_fails = 5; window = 600 * second; ban_dur = 600 * second }

unfoldable pub new_limiter : Limiter
new_limiter = record { fails = λ ip. none; banned = λ ip. none; last_prune = 0 }

unfoldable pub update {ℓ} : {A : Type ℓ} → String → A → (String → A) → String → A
update ip v f j = if str_eq ip j then v else f j

-- the loop that keeps the times at or after `now - window`
unfoldable pub keep_recent : ℕ → ℕ → List ℕ → List ℕ
keep_recent window now [] = []
keep_recent window now (t ∷ ts) =
    let rest = keep_recent window now ts in if leb now (t + window) then t ∷ rest else rest

-- `until, banned := l.banned[ip]; banned && now >= until`
abbrev pub lapsed : ℕ → Option ℕ → Bool
lapsed now none = false
lapsed now (some until) = leb until now

-- `until, banned := l.banned[ip]; banned && now < until`
abbrev pub banned_at : ℕ → Option ℕ → Bool
banned_at now none = false
banned_at now (some until) = ltb now until

abbrev or_empty : Option (List ℕ) → List ℕ
or_empty none = []
or_empty (some ts) = ts

-- what the first loop of `prune` does to a history, given what it keeps
unfoldable pub keep_history : List ℕ → ℕ → Option ℕ → List ℕ → Option (List ℕ)
keep_history [] now ban ts = if banned_at now ban then some ts else none
keep_history (k ∷ ks) now ban ts = some (k ∷ ks)

unfoldable pub prune_history : Policy → ℕ → Option ℕ → Option (List ℕ) → Option (List ℕ)
prune_history p now ban none = none
prune_history p now ban (some ts) = keep_history (keep_recent p.window now ts) now ban ts

-- both loops
unfoldable pub prune : Policy → ℕ → Limiter → Limiter
prune p now l = record l {
  fails = λ ip.
      if lapsed now (l.banned ip) then none else prune_history p now (l.banned ip) (l.fails ip);
  banned = λ ip. if lapsed now (l.banned ip) then none else l.banned ip;
}

unfoldable pub maybe_prune : Policy → ℕ → Limiter → Limiter
maybe_prune p now l =
    if ltb now (l.last_prune + p.window) then l else prune p now (record l { last_prune = now })

unfoldable pub success : String → Limiter → Limiter
success ip l = record l { fails = update ip none l.fails; banned = update ip none l.banned }

unfoldable pub blocked : String → ℕ → Limiter → Limiter × Bool
blocked ip now l =
    if lapsed now (l.banned ip) then (success ip l, false) else (l, banned_at now (l.banned ip))

-- the history that `Fail` writes
unfoldable pub history : Policy → ℕ → Option (List ℕ) → List ℕ
history p now ts = keep_recent p.window now (or_empty ts) ++ now ∷ []

unfoldable pub fail : Policy → String → ℕ → Limiter → Limiter
fail p ip now l =
    let l' = maybe_prune p now l in
    let kept = history p now (l'.fails ip) in
    record l' {
      fails = update ip (some kept) l'.fails;
      banned =
          if leb p.max_fails (length kept)
          then update ip (some (now + p.ban_dur)) l'.banned
          else l'.banned;
    }

-- The methods of `loginLimiter`.
unfoldable pub login_prune : ℕ → Limiter → Limiter
login_prune now l = prune login_policy now l

unfoldable pub login_maybe_prune : ℕ → Limiter → Limiter
login_maybe_prune now l = maybe_prune login_policy now l

unfoldable pub login_blocked : String → ℕ → Limiter → Limiter × Bool
login_blocked ip now l = blocked ip now l

unfoldable pub login_fail : String → ℕ → Limiter → Limiter
login_fail ip now l = fail login_policy ip now l

unfoldable pub login_success : String → Limiter → Limiter
login_success ip l = success ip l
