-- ===== src/Procmetrics/Collector/Counted.antt =====
-- The bytes that a run of samples reports.
use frp_panel.Prelude.{
  ◌≡◌, refl, ap, ◌∙◌, ℕ, ◌<◌, ◌^◌, Option, none, some, List, [], ◌∷◌, if◌then◌else◌, arith,
}
use frp_panel.Prelude.Int.{
  ℤ, pos, ◌+ℤ◌, ◌-ℤ◌, ◌-64◌, ◌≤ℤ◌, ltb_ℤ, IsInt64, int_laws, wrap64_of_IsInt64, parts, +64_IsInt64,
  negsuc,
}
use frp_panel.Prelude.Text.{Bytes, cut_byte}
use frp_panel.Procmetrics.Parse.{
  HostFloats, CpuTimes, read_cpu, NetCounters, no_counters, read_net, parse_net_dev, net_lines,
  add_counters, iface_of, lines_of,
}
use frp_panel.Procmetrics.Collector.{
  Proc, NetBase, Collector, Reading, rise, net_part, sample, cpu_base,
}

pub data Direction : Type 0 where
  received sent : Direction

abbrev pub count : Direction → NetCounters → ℤ
count received nc = nc.rx_bytes
count sent nc = nc.tx_bytes

abbrev IsCounters : NetCounters → Type 0
IsCounters nc = IsInt64 nc.rx_bytes × IsInt64 nc.tx_bytes

add_counters-IsCounters :
    (o : Option NetCounters) (nc : NetCounters) → IsCounters nc → IsCounters (add_counters o nc)
add_counters-IsCounters none nc h = h
add_counters-IsCounters (some c) nc h =
    (+64_IsInt64 nc.rx_bytes c.rx_bytes, +64_IsInt64 nc.tx_bytes c.tx_bytes)

net_lines-IsCounters :
    (ls : List Bytes) (nc : NetCounters) → IsCounters nc → IsCounters (net_lines ls nc)
unfolding net_lines
net_lines-IsCounters [] nc h = h
net_lines-IsCounters (l ∷ ls) nc h =
    net_lines-IsCounters ls (add_counters (iface_of (cut_byte 58 l)) nc)
      (add_counters-IsCounters (iface_of (cut_byte 58 l)) nc h)

read_net-IsCounters : (file : Option Bytes) → IsCounters (read_net file)
unfolding read_net parse_net_dev
read_net-IsCounters none = ground arith
read_net-IsCounters (some file) = net_lines-IsCounters (lines_of file) no_counters (ground arith)

count-IsInt64 : (dir : Direction) (nc : NetCounters) → IsCounters nc → IsInt64 (count dir nc)
count-IsInt64 received nc h = h.0
count-IsInt64 sent nc h = h.1

-- the bytes by which a counter is below the last one
unfoldable pub fall : ℤ → ℤ → ℤ
fall cur prev = if ltb_ℤ cur prev then prev -ℤ cur else pos 0

difference-IsInt64 : (a b : ℕ) → a < 2 ^ 63 → b < 2 ^ 63 → IsInt64 (pos a -ℤ pos b)
unfolding ◌-ℤ◌
difference-IsInt64 a b ha hb = ground arith

rise-pos :
    (a b : ℕ)
    → a < 2 ^ 63
    → b < 2 ^ 63
    → rise (pos a) (pos b) ≡ (if ltb_ℤ (pos a -ℤ pos b) (pos 0) then pos 0 else pos a -ℤ pos b)
unfolding rise ◌-64◌
rise-pos a b ha hb =
    ap (λ d. if ltb_ℤ d (pos 0) then pos 0 else d)
      (wrap64_of_IsInt64 (pos a -ℤ pos b) (difference-IsInt64 a b ha hb))

rise-fall :
    (cur prev : ℤ)
    → pos 0 ≤ℤ cur
    → pos 0 ≤ℤ prev
    → IsInt64 cur
    → IsInt64 prev
    → rise cur prev +ℤ prev ≡ cur +ℤ fall cur prev
unfolding fall ◌-ℤ◌ ◌+ℤ◌
rise-fall (pos a) (pos b) hc hp ic ip = ap (λ d. d +ℤ pos b) (rise-pos a b ic.0 ip.0) ∙ ground arith
rise-fall (pos a) (negsuc b) hc hp ic ip = ground arith
rise-fall (negsuc a) prev hc hp ic ip = ground arith

regroup : (d r y l f g x : ℤ) → d +ℤ y ≡ x +ℤ f → r +ℤ x ≡ l +ℤ g → d +ℤ r +ℤ y ≡ l +ℤ (f +ℤ g)
regroup d r y l f g x h k = omega (int_laws, parts h, parts k)

-- the counter of a sample, 0 where it could not be read
unfoldable pub counter : Direction → Proc → ℤ
counter dir p = count dir (read_net p.net_dev)

unfoldable pub last_counter : Direction → List (Proc × ℤ) → ℤ → ℤ
last_counter dir [] prev = prev
last_counter dir ((p, now) ∷ ps) prev = last_counter dir ps (counter dir p)

unfoldable pub fallen : Direction → List (Proc × ℤ) → ℤ → ℤ
fallen dir [] prev = pos 0
fallen dir ((p, now) ∷ ps) prev = fall (counter dir p) prev +ℤ fallen dir ps (counter dir p)

-- no counter is negative
abbrev pub IsCounted : Direction → List (Proc × ℤ) → Type 0
IsCounted dir [] = Unit
IsCounted dir ((p, now) ∷ ps) = (pos 0 ≤ℤ counter dir p) × IsCounted dir ps

module _ (floats : HostFloats) where
  abbrev pub delta_of : Direction → Reading floats → ℤ
  delta_of received r = r.rx_delta
  delta_of sent r = r.tx_delta

  -- the sum of what the readings report
  unfoldable pub reported : Direction → List (Proc × ℤ) → Collector → ℤ
  reported dir [] c = pos 0
  reported dir ((p, now) ∷ ps) c =
      delta_of dir (sample floats p now c).1 +ℤ reported dir ps (sample floats p now c).0

  delta_of-sample :
      (dir : Direction) (p : Proc) (now : ℤ) (cpu : Option CpuTimes) (b : NetBase)
      → delta_of dir (sample floats p now (record { cpu = cpu; net = some b })).1
        ≡ rise (counter dir p) (count dir b.prev_net)
  unfolding sample net_part counter
  delta_of-sample received p now cpu b = refl
  delta_of-sample sent p now cpu b = refl

  -- While no counter is negative, a run of samples reports what the counter has risen since the
  -- sample before, and once more what it fell by in between: after a sample that cannot read it,
  -- which counts as 0, all of it again.
  pub reported-risen :
      (dir : Direction) (ps : List (Proc × ℤ)) (cpu : Option CpuTimes) (b : NetBase)
      → pos 0 ≤ℤ count dir b.prev_net
      → IsInt64 (count dir b.prev_net)
      → IsCounted dir ps
      → reported dir ps (record { cpu = cpu; net = some b }) +ℤ count dir b.prev_net
        ≡ last_counter dir ps (count dir b.prev_net) +ℤ fallen dir ps (count dir b.prev_net)
  unfolding reported last_counter fallen sample counter
  reported-risen dir [] cpu b hb ib h = omega int_laws
  reported-risen dir ((p, now) ∷ ps) cpu b hb ib h =
      ap
        (λ d.
          d
          +ℤ reported dir ps (sample floats p now (record { cpu = cpu; net = some b })).0
          +ℤ count dir b.prev_net)
        (delta_of-sample dir p now cpu b)
      ∙ regroup (rise (counter dir p) (count dir b.prev_net))
          (reported dir ps (sample floats p now (record { cpu = cpu; net = some b })).0)
          (count dir b.prev_net) (last_counter dir ps (counter dir p))
          (fall (counter dir p) (count dir b.prev_net)) (fallen dir ps (counter dir p))
          (counter dir p) (rise-fall (counter dir p) (count dir b.prev_net) h.0 hb ic ib)
          (reported-risen dir ps (cpu_base floats cpu (read_cpu p.stat))
            (record { prev_net = read_net p.net_dev; prev_time = now }) h.0 ic h.1)
    where
      ic : IsInt64 (counter dir p)
      ic = count-IsInt64 dir (read_net p.net_dev) (read_net-IsCounters p.net_dev)
