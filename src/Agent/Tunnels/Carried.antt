-- ===== src/Agent/Tunnels/Carried.antt =====
-- What a run of samples charges to one tunnel, and what the tunnel carried.
use frp_panel.Prelude.{
  ℕ, ◌+◌, ◌^◌, ◌<◌, ◌≡◌, refl, sym, ap, ap₂, ◌∙◌, true, Option, none, some, List, [], ◌∷◌, ◌++◌,
  map, arith,
}
use frp_panel.Prelude.Int.{ℤ, pos, ◌+ℤ◌, ◌-64◌, ◌-ℤ◌, wrap64_of_IsInt64, +ℤ_assoc, zero-+ℤ}
use frp_panel.Prelude.Assoc.{Assoc, lookup}
use frp_panel.Protocol.Message.{ProxyInfo}
use frp_panel.Agent.Tunnels.{Key, key_eq, Totals, or_zero, delta, is_seen, sample_tunnels}
use frp_panel.Agent.Tunnels.Charged.{
  Direction, inbound, outbound, total_of, charged, reported, latest, charge, charged-measure,
  latest-reported, lookup-sample_tunnels,
}

-- what some samples charge, one after the other
unfoldable pub charged_run : Direction → Key → List (List ProxyInfo) → Assoc Key Totals → ℤ
charged_run dir k [] last_tun = pos 0
charged_run dir k (ps ∷ rest) last_tun =
    charged dir k (sample_tunnels ps last_tun).proxies
    +ℤ charged_run dir k rest (sample_tunnels ps last_tun).last_tun

-- the totals that the samples report
unfoldable pub totals_run : Direction → Key → List (List ProxyInfo) → List ℤ
totals_run dir k [] = []
totals_run dir k (ps ∷ rest) = map (total_of dir) (reported k ps) ++ totals_run dir k rest

-- every sample reports the tunnel
abbrev pub AllReport : Key → List (List ProxyInfo) → Type 0
AllReport k [] = Unit {0}
AllReport k (ps ∷ rest) = (is_seen k ps ≡ true) × AllReport k rest

charge-append :
    (dir : Direction) (ts : List Totals) (rest : List ℤ) (o : Option Totals)
    → charge (map (total_of dir) ts ++ rest) (total_of dir (or_zero o))
      ≡ charge (map (total_of dir) ts) (total_of dir (or_zero o))
        +ℤ charge rest (total_of dir (or_zero (latest ts o)))
unfolding charge latest
charge-append dir [] rest o = sym (zero-+ℤ _)
charge-append dir (t ∷ ts) rest o =
    ap (λ z. delta (total_of dir t) (total_of dir (or_zero o)) +ℤ z)
      (charge-append dir ts rest (some t))
    ∙ sym (+ℤ_assoc _ _ _)

charged-sample :
    (dir : Direction) (k : Key) (ps : List ProxyInfo) (last_tun : Assoc Key Totals)
    → charged dir k (sample_tunnels ps last_tun).proxies
      ≡ charge (map (total_of dir) (reported k ps)) (total_of dir (or_zero (lookup k last_tun)))
unfolding sample_tunnels
charged-sample dir k ps last_tun = charged-measure dir k ps last_tun

charged_run-charge :
    (dir : Direction) (k : Key) (run : List (List ProxyInfo)) (last_tun : Assoc Key Totals)
    → AllReport k run
    → charged_run dir k run last_tun
      ≡ charge (totals_run dir k run) (total_of dir (or_zero (lookup k last_tun)))
unfolding charged_run totals_run charge
charged_run-charge dir k [] last_tun h = refl
charged_run-charge dir k (ps ∷ run) last_tun h =
    ap₂ ◌+ℤ◌ (charged-sample dir k ps last_tun) (
      charged_run-charge dir k run (sample_tunnels ps last_tun).last_tun h.1
      ∙ ap (λ o. charge (totals_run dir k run) (total_of dir (or_zero o)))
          (lookup-sample_tunnels k ps last_tun ∙ latest-reported k ps none (lookup k last_tun) h.0))
    ∙ sym (charge-append dir (reported k ps) (totals_run dir k run) (lookup k last_tun))

-- What a tunnel carries between two samples: so many bytes; or some, after which frps starts again and
-- forgets them, and then so many.
pub data Use : Type 0 where
  grew : ℕ → Use
  restarted : ℕ → ℕ → Use

abbrev pub total_after : ℕ → Use → ℕ
total_after n (grew m) = n + m
total_after n (restarted lost m) = m

-- the bytes of a use that a total counts, those that none does, and all of them
abbrev pub bytes : Use → ℕ
bytes (grew m) = m
bytes (restarted lost m) = m

abbrev pub lost_bytes : Use → ℕ
lost_bytes (grew m) = 0
lost_bytes (restarted lost m) = lost

abbrev pub all_bytes : Use → ℕ
all_bytes (grew m) = m
all_bytes (restarted lost m) = lost + m

-- A start again shows if the new total is below the last one.
abbrev pub IsSeenIn : ℕ → Use → Type 0
IsSeenIn n (grew m) = Unit {0}
IsSeenIn n (restarted lost m) = m < n

unfoldable pub totals_from : ℕ → List Use → List ℤ
totals_from n [] = []
totals_from n (u ∷ us) = pos (total_after n u) ∷ totals_from (total_after n u) us

unfoldable pub counted : List Use → ℕ
counted [] = 0
counted (u ∷ us) = bytes u + counted us

-- the bytes that frps forgot before a sample read them
unfoldable pub forgotten : List Use → ℕ
forgotten [] = 0
forgotten (u ∷ us) = lost_bytes u + forgotten us

-- all the bytes that went through the tunnel
unfoldable pub carried : List Use → ℕ
carried [] = 0
carried (u ∷ us) = all_bytes u + carried us

carried-counted : (us : List Use) → counted us + forgotten us ≡ carried us
unfolding counted forgotten carried
carried-counted [] = refl
carried-counted (grew m ∷ us) = omega (arith, carried-counted us)
carried-counted (restarted lost m ∷ us) = omega (arith, carried-counted us)

abbrev pub AllSeen : ℕ → List Use → Type 0
AllSeen n [] = Unit {0}
AllSeen n (u ∷ us) = IsSeenIn n u × (total_after n u < 2 ^ 63) × AllSeen (total_after n u) us

delta-use :
    (n : ℕ) (u : Use)
    → n < 2 ^ 63
    → IsSeenIn n u
    → total_after n u < 2 ^ 63
    → delta (pos (total_after n u)) (pos n) ≡ pos (bytes u)
unfolding delta ◌-64◌ ◌-ℤ◌
delta-use n (grew m) h s b =
    rw (wrap64_of_IsInt64 (pos (n + m) -ℤ pos n) (ground arith)) (ground arith)
delta-use n (restarted lost m) h s b =
    rw (wrap64_of_IsInt64 (pos m -ℤ pos n) (ground arith)) (ground arith)

charge-totals_from :
    (us : List Use) (n : ℕ)
    → n < 2 ^ 63
    → AllSeen n us
    → charge (totals_from n us) (pos n) ≡ pos (counted us)
unfolding charge totals_from counted
charge-totals_from [] n h s = refl
charge-totals_from (u ∷ us) n h s =
    ap₂ ◌+ℤ◌ (delta-use n u h s.0 s.1) (charge-totals_from us (total_after n u) s.1 s.2)
    ∙ unfold ◌+ℤ◌ in ground arith

charged_run-counted :
    (dir : Direction) (k : Key) (run : List (List ProxyInfo)) (last_tun : Assoc Key Totals) (n : ℕ)
    (us : List Use)
    → AllReport k run
    → total_of dir (or_zero (lookup k last_tun)) ≡ pos n
    → totals_run dir k run ≡ totals_from n us
    → n < 2 ^ 63
    → AllSeen n us
    → charged_run dir k run last_tun ≡ pos (counted us)
charged_run-counted dir k run last_tun n us h e e' b s =
    charged_run-charge dir k run last_tun h ∙ ap₂ charge e' e ∙ charge-totals_from us n b s

-- A run of samples that all report a tunnel charges it each byte that it carried since the last sample
-- before exactly once, but for those that frps forgot by starting again before a sample read them: with
-- these, the charges are all that it carried. A start again shows, as the total is then below the last
-- one, and no total passes 2 ^ 63.
pub charged_run-carried :
    (dir : Direction) (k : Key) (run : List (List ProxyInfo)) (last_tun : Assoc Key Totals) (n : ℕ)
    (us : List Use)
    → AllReport k run
    → total_of dir (or_zero (lookup k last_tun)) ≡ pos n
    → totals_run dir k run ≡ totals_from n us
    → n < 2 ^ 63
    → AllSeen n us
    → charged_run dir k run last_tun +ℤ pos (forgotten us) ≡ pos (carried us)
charged_run-carried dir k run last_tun n us h e e' b s =
    ap (λ z. z +ℤ pos (forgotten us)) (charged_run-counted dir k run last_tun n us h e e' b s)
    ∙ unfold ◌+ℤ◌ in ground (arith, carried-counted us)

unfoldable pub end_total : ℕ → List Use → ℕ
end_total n [] = n
end_total n (u ∷ us) = end_total (total_after n u) us

-- When the agent starts again, its map is empty: the first sample then charges the whole total of
-- the day. So the run before and this sample charge the bytes that frps counted, the `m` since the run
-- among them, and once more the last total of the run. No total passes 2 ^ 63, and a start of frps
-- shows.
pub charged_run-again :
    (dir : Direction) (k : Key) (run : List (List ProxyInfo)) (ps : List ProxyInfo) (us : List Use)
    (m : ℕ)
    → AllReport k (ps ∷ run)
    → totals_run dir k run ≡ totals_from 0 us
    → AllSeen 0 us
    → totals_run dir k (ps ∷ []) ≡ totals_from (end_total 0 us) (grew m ∷ [])
    → end_total 0 us + m < 2 ^ 63
    → charged_run dir k run [] +ℤ charged_run dir k (ps ∷ []) []
      ≡ pos (counted us + m) +ℤ pos (end_total 0 us)
unfolding totals_from ◌+ℤ◌
charged_run-again dir k run ps us m h e s e' b =
    ap₂ ◌+ℤ◌ (charged_run-counted dir k run [] 0 us h.1 (from_nothing dir) e (omega arith) s) (
      charged_run-counted dir k (ps ∷ []) [] 0 (grew (end_total 0 us + m) ∷ []) (h.0, tt)
        (from_nothing dir)
        (e'
          ∙ ap (λ t. pos t ∷ []) {x = end_total 0 us + m} {y = 0 + (end_total 0 us + m)}
              (omega arith))
        (omega arith) (tt, omega arith, tt))
    ∙ unfold counted in ground arith
  where
    from_nothing : (dir : Direction) → total_of dir (or_zero (lookup ⦃e = key_eq⦄ k [])) ≡ pos 0
    from_nothing inbound = unfold lookup in refl
    from_nothing outbound = unfold lookup in refl
