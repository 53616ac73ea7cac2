-- ===== src/Agent/Handshake/Turned.antt =====
-- Who is turned away.
use Prim.Native.String.{String}
use text.Mathlib.TextEquality.{eq_iff as str_eq_iff}
use text.Mathlib.Text.{◌==◌ as str_eq}
use frp_panel.Prelude.{
  subst, ℕ, ◌+◌, ◌*◌, ◌≤◌, ◌<◌, ◌≡◌, refl, sym, ap, ◌∙◌, Bool, true, false, not, Option, none, some,
  List, [], ◌∷◌, ◌++◌, if◌then◌else◌, Bool-cases, inl, inr, arith,
}
use frp_panel.Prelude.Text.{Bytes, codes, same_bytes}
use frp_panel.Limiter.{Limiter, auth_policy, second, blocked}
use frp_panel.Limiter.Bans.{
  Call, failed, succeeded, checked, call, calls, failures, InWindow, BannedTo, AllSpare,
  banned_after, calls-BannedTo, blocked-BannedTo, calls-append,
}
use frp_panel.Protocol.Sign.{Envelope, Crypto, VerifyError, verify}
use frp_panel.Agent.Handshake.{
  Message, read_failed, garbage, envelope, Attempt, Outcome, too_many_failures, not_upgraded,
  no_message, not_hello, refused, welcome, check_hello, receive, handshake,
}

-- the calls of the limiter that an attempt comes to
unfoldable pub calls_of : Attempt → Outcome → List Call
calls_of a too_many_failures = checked a.ip a.now ∷ []
calls_of a not_upgraded = checked a.ip a.now ∷ []
calls_of a no_message = checked a.ip a.now ∷ []
calls_of a not_hello = checked a.ip a.now ∷ failed a.ip a.later ∷ []
calls_of a (refused err) = checked a.ip a.now ∷ failed a.ip a.later ∷ []
calls_of a (welcome e) = checked a.ip a.now ∷ succeeded a.ip ∷ []

module _ (crypto : Crypto) (token : Bytes) where
  -- the limiter after a check that let an attempt pass
  abbrev passed : Attempt → Limiter → Limiter
  passed a l = (blocked a.ip a.now l).0

  check_hello-calls :
      (a : Attempt) (e : Envelope) (o : Option VerifyError) (l : Limiter)
      → let (l', out) = check_hello crypto token a e o (passed a l) in
        l' ≡ calls auth_policy (calls_of a out) l
  unfolding check_hello calls calls_of call
  check_hello-calls a e (some err) l = refl
  check_hello-calls a e none l = refl

  receive-calls :
      (a : Attempt) (m : Message) (l : Limiter)
      → let (l', out) = receive crypto token a m (passed a l) in
        l' ≡ calls auth_policy (calls_of a out) l
  unfolding receive calls calls_of call
  receive-calls a read_failed l = refl
  receive-calls a garbage l = refl
  receive-calls a (envelope e) l = elim (Bool-cases (same_bytes e.typ (codes "hello"))) [
    | inl h ↦ rw h (check_hello-calls a e (verify crypto e token a.unix) l)
    | inr h ↦ rw h refl
  ]

  handshake-calls :
      (a : Attempt) (l : Limiter)
      → let (l', out) = handshake crypto token a l in l' ≡ calls auth_policy (calls_of a out) l
  unfolding handshake calls calls_of call
  handshake-calls a l = elim (Bool-cases (blocked a.ip a.now l).1) [
    | inl h ↦ rw h refl
    | inr h ↦ rw h (upgrade a.upgraded)
  ]
    where
      after_upgrade : Bool → Limiter × Outcome
      after_upgrade u =
          if not u
          then (passed a l, not_upgraded)
          else receive crypto token a a.message (passed a l)

      upgrade :
          (u : Bool) → (after_upgrade u).0 ≡ calls auth_policy (calls_of a (after_upgrade u).1) l
      upgrade true = receive-calls a a.message l
      upgrade false = refl

  -- the limiter after some attempts, one after the other
  unfoldable pub handshakes : List Attempt → Limiter → Limiter
  handshakes [] l = l
  handshakes (a ∷ as') l = handshakes as' (handshake crypto token a l).0

  -- the calls that the attempts come to
  unfoldable pub calls_run : List Attempt → Limiter → List Call
  calls_run [] l = []
  calls_run (a ∷ as') l =
      let (l', out) = handshake crypto token a l in calls_of a out ++ calls_run as' l'

  handshakes-calls :
      (as' : List Attempt) (l : Limiter) → handshakes as' l ≡ calls auth_policy (calls_run as' l) l
  unfolding handshakes calls_run calls
  handshakes-calls [] l = refl
  handshakes-calls (a ∷ as') l =
      handshakes-calls as' (handshake crypto token a l).0
      ∙ ap (calls auth_policy (calls_run as' (handshake crypto token a l).0)) (handshake-calls a l)
      ∙ sym (
          calls-append auth_policy (calls_of a (handshake crypto token a l).1)
            (calls_run as' (handshake crypto token a l).0) l)

  handshake-blocked :
      (a : Attempt) (l : Limiter)
      → (blocked a.ip a.now l).1 ≡ true
      → (handshake crypto token a l).1 ≡ too_many_failures
  unfolding handshake
  handshake-blocked a l h = rw h refl

  -- Every attempt is made and answered before an instant.
  abbrev pub AllBefore : ℕ → List Attempt → Type 0
  AllBefore end [] = Unit {0}
  AllBefore end (a ∷ as') = (a.now < end) × (a.later < end) × AllBefore end as'

  calls_of-AllSpare :
      (ip : String) (end : ℕ) (a : Attempt) (o : Outcome)
      → str_eq a.ip ip ≡ false
      → a.now < end
      → a.later < end
      → AllSpare ip end (calls_of a o)
  unfolding calls_of
  calls_of-AllSpare ip end a too_many_failures h n m = (n, tt)
  calls_of-AllSpare ip end a not_upgraded h n m = (n, tt)
  calls_of-AllSpare ip end a no_message h n m = (n, tt)
  calls_of-AllSpare ip end a not_hello h n m = (n, ((h, m), tt))
  calls_of-AllSpare ip end a (refused err) h n m = (n, ((h, m), tt))
  calls_of-AllSpare ip end a (welcome e) h n m = (n, (h, tt))

  -- An attempt of the banned address comes to a check only.
  handshake-AllSpare :
      (ip : String) (end : ℕ) (a : Attempt) (l : Limiter)
      → a.now < end
      → a.later < end
      → BannedTo ip end l
      → AllSpare ip end (calls_of a (handshake crypto token a l).1)
  unfolding calls_of
  handshake-AllSpare ip end a l n m b = elim (Bool-cases (str_eq a.ip ip)) [
    | inl same ↦
        let b' = subst (λ j. BannedTo j end l) (sym ((str_eq_iff a.ip ip).0 same)) b in
        rw (handshake-blocked a l (blocked-BannedTo auth_policy a.ip end a.now l n b')) (n, tt)
    | inr other ↦ calls_of-AllSpare ip end a (handshake crypto token a l).1 other n m
  ]

  handshakes-BannedTo :
      (ip : String) (end : ℕ) (as' : List Attempt) (l : Limiter)
      → AllBefore end as'
      → BannedTo ip end l
      → BannedTo ip end (handshakes as' l)
  unfolding handshakes
  handshakes-BannedTo ip end [] l h b = b
  handshakes-BannedTo ip end (a ∷ as') l (n, m, h) b =
      handshakes-BannedTo ip end as' (handshake crypto token a l).0 h (
        subst (BannedTo ip end) (sym (handshake-calls a l)) (
          calls-BannedTo auth_policy ip end (calls_of a (handshake crypto token a l).1) l
            (handshake-AllSpare ip end a l n m b) b))

  -- An address has no ban. Then, within a minute, it fails ten handshakes, with no success of it
  -- between them; what fails of other addresses in between is of the same minute. Whatever attempts of
  -- any address follow until ten minutes after the start of that minute: each further one of the address
  -- in that time is turned away unseen, whatever it says.
  pub handshake-turned_away :
      (as' more : List Attempt) (l : Limiter) (t0 : ℕ) (a : Attempt)
      → l.banned a.ip ≡ none
      → InWindow auth_policy a.ip t0 (calls_run as' l)
      → 10 ≤ failures a.ip 0 (calls_run as' l)
      → AllBefore (t0 + 600 * second) more
      → a.now < t0 + 600 * second
      → (handshake crypto token a (handshakes more (handshakes as' l))).1 ≡ too_many_failures
  handshake-turned_away as' more l t0 a free window enough before_end before =
      handshake-blocked a (handshakes more (handshakes as' l)) (
        blocked-BannedTo auth_policy a.ip (t0 + 600 * second) a.now
          (handshakes more (handshakes as' l)) before
          (handshakes-BannedTo a.ip (t0 + 600 * second) more (handshakes as' l) before_end (
            subst (BannedTo a.ip (t0 + 600 * second)) (sym (handshakes-calls as' l)) (
              banned_after auth_policy a.ip t0 (calls_run as' l) l free (omega arith) window
                enough))))
