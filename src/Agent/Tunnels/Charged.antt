-- ===== src/Agent/Tunnels/Charged.antt =====
-- What the samples charge to one tunnel.
use frp_panel.Prelude.{
  ◌≡◌, refl, ap, ◌∙◌, true, false, Option, none, some, List, [], ◌∷◌, map, arith, if◌then◌else◌,
  Bool-cases, inl, inr,
}
use frp_panel.Prelude.Int.{ℤ, pos, ◌+ℤ◌, zero-+ℤ}
use frp_panel.Prelude.Assoc.{Assoc, lookup, insert, string_eq, int_eq, pair_eq, lookup-insert}
use frp_panel.Protocol.Message.{ProxyInfo, ProxyTraffic}
use frp_panel.Agent.Tunnels.{
  Key, key_eq, key_of, Totals, totals_of, or_zero, delta, report_of, measure, is_seen, drop_unseen,
  sample_tunnels,
}

-- the totals that a list reports for a key
unfoldable pub reported : Key → List ProxyInfo → List Totals
reported k [] = []
reported k (p ∷ ps) =
    let rest = reported k ps in if key_eq.beq (key_of p) k then totals_of p ∷ rest else rest

pub data Direction : Type 0 where
  inbound outbound : Direction

abbrev pub total_of : Direction → Totals → ℤ
total_of inbound t = t.total_in
total_of outbound t = t.total_out

abbrev pub delta_of : Direction → ProxyTraffic → ℤ
delta_of inbound t = t.delta_in
delta_of outbound t = t.delta_out

-- the bytes that some reports charge to a key
unfoldable pub charged : Direction → Key → List ProxyTraffic → ℤ
charged dir k [] = pos 0
charged dir k (t ∷ ts) =
    (if key_eq.beq (t.proto, t.remote_port) k then delta_of dir t else pos 0) +ℤ charged dir k ts

-- the last of some totals
unfoldable pub latest : List Totals → Option Totals → Option Totals
latest [] last = last
latest (t ∷ ts) last = latest ts (some t)

lookup-measure :
    (k : Key) (ps : List ProxyInfo) (last_tun : Assoc Key Totals)
    → lookup k (measure ps last_tun).last_tun ≡ latest (reported k ps) (lookup k last_tun)
unfolding measure reported latest
lookup-measure k [] last_tun = refl
lookup-measure k (p ∷ ps) last_tun =
    lookup-measure k ps (insert (key_of p) (totals_of p) last_tun)
    ∙ ap (latest (reported k ps)) (lookup-insert (key_of p) k (totals_of p) last_tun)
    ∙ split
  where
    split :
        latest
          (reported k ps)
          (if key_eq.beq (key_of p) k then some (totals_of p) else lookup k last_tun)
        ≡ latest
            (if key_eq.beq (key_of p) k then totals_of p ∷ reported k ps else reported k ps)
            (lookup k last_tun)
    split = elim (Bool-cases (key_eq.beq (key_of p) k)) [ inl h ↦ rw h refl | inr h ↦ rw h refl ]

lookup-drop_unseen :
    (k : Key) (ps : List ProxyInfo) (m : Assoc Key Totals)
    → lookup k (drop_unseen ps m) ≡ (if is_seen k ps then lookup k m else none)
unfolding drop_unseen lookup
lookup-drop_unseen k ps [] = ground arith
lookup-drop_unseen k ps ((j, t) ∷ m) = ground (arith, key_eq.beq_iff j k, lookup-drop_unseen k ps m)

reported-none : (k : Key) (ps : List ProxyInfo) → is_seen k ps ≡ false → reported k ps ≡ []
unfolding is_seen reported
reported-none k [] h = refl
reported-none k (p ∷ ps) h = ground (arith, reported-none k ps)

pub latest-reported :
    (k : Key) (ps : List ProxyInfo) (a b : Option Totals)
    → is_seen k ps ≡ true
    → latest (reported k ps) a ≡ latest (reported k ps) b
unfolding is_seen reported latest
latest-reported k [] a b h = cc
latest-reported k (p ∷ ps) a b h = elim (Bool-cases (key_eq.beq (key_of p) k)) [
  | inl e ↦ rw e refl
  | inr e ↦ rw e (latest-reported k ps a b (rw e at h))
]

is_seen-reported :
    (k : Key) (ps : List ProxyInfo) (last : Option Totals)
    → (if is_seen k ps then latest (reported k ps) last else none) ≡ latest (reported k ps) none
unfolding latest
is_seen-reported k ps last = elim (Bool-cases (is_seen k ps)) [
  | inl h ↦ rw h (latest-reported k ps last none h)
  | inr h ↦ rw (h, reported-none k ps h) refl
]

-- After a sample the agent has the last totals of each proxy that was reported, and nothing of any
-- other.
pub lookup-sample_tunnels :
    (k : Key) (ps : List ProxyInfo) (last_tun : Assoc Key Totals)
    → lookup k (sample_tunnels ps last_tun).last_tun ≡ latest (reported k ps) none
unfolding sample_tunnels
lookup-sample_tunnels k ps last_tun =
    lookup-drop_unseen k ps (measure ps last_tun).last_tun
    ∙ ap (λ o. if is_seen k ps then o else none) (lookup-measure k ps last_tun)
    ∙ is_seen-reported k ps (lookup k last_tun)

-- What some totals charge, one after the other, after the total `prev`.
unfoldable pub charge : List ℤ → ℤ → ℤ
charge [] prev = pos 0
charge (t ∷ ts) prev = delta t prev +ℤ charge ts t

delta-report_of :
    (dir : Direction) (p : ProxyInfo) (prev : Totals)
    → delta_of dir (report_of p prev) ≡ delta (total_of dir (totals_of p)) (total_of dir prev)
unfolding report_of
delta-report_of inbound p prev = refl
delta-report_of outbound p prev = refl

pub charged-measure :
    (dir : Direction) (k : Key) (ps : List ProxyInfo) (last_tun : Assoc Key Totals)
    → charged dir k (measure ps last_tun).proxies
      ≡ charge (map (total_of dir) (reported k ps)) (total_of dir (or_zero (lookup k last_tun)))
unfolding measure charged reported charge report_of
charged-measure dir k [] last_tun = refl
charged-measure dir k (p ∷ ps) last_tun =
    ap
      (λ z.
        (if key_eq.beq (key_of p) k
          then delta_of dir (report_of p (or_zero (lookup (key_of p) last_tun)))
          else pos 0)
        +ℤ z)
      (charged-measure dir k ps (insert (key_of p) (totals_of p) last_tun)
        ∙ ap (λ o. charge (map (total_of dir) (reported k ps)) (total_of dir (or_zero o)))
            (lookup-insert (key_of p) k (totals_of p) last_tun))
    ∙ elim (Bool-cases (key_eq.beq (key_of p) k)) [
      | inl h ↦
          rw (h, (key_eq.beq_iff (key_of p) k).0 h)
            (ap (λ z. z +ℤ charge (map (total_of dir) (reported k ps)) (total_of dir (totals_of p)))
              (delta-report_of dir p (or_zero (lookup k last_tun))))
      | inr h ↦ rw h (zero-+ℤ _)
    ]
