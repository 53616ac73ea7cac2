-- ===== src/Procmetrics/Parse.antt =====
-- internal/procmetrics/procmetrics.go over the text of the kernel's files; `none` stands for a file that
-- cannot be opened. The operations of float64 are a parameter.
use frp_panel.Prelude.{
  ℕ, suc, ◌+◌, ◌*◌, ◌%◌, ◌^◌, ◌==◌, Bool, false, ◌||◌, ◌>>=◌, Option, none, some, List, [], ◌∷◌,
  if◌then◌else◌, leb, length, get_elem?,
}
use frp_panel.Prelude.Int.{ℤ, pos, negsuc, ◌+64◌, ◌-64◌, leb_ℤ, ltb_ℤ, wrap64}
use frp_panel.Prelude.Text.{Bytes, codes, same_bytes, has_prefix, fields, trim_space, cut_byte}
use frp_panel.Prelude.Decimal.{parse_int, parse_uint, to_option, value_or}
use frp_panel.Agent.Wal.{lines_from, drop_cr}

pub record HostFloats : Type 1 where
  pub Float : Type 0
  pub zero_float : Float
  pub hundred : Float
  pub of_ℤ : ℤ → Float
  pub sub_float : Float → Float → Float
  pub mul_float : Float → Float → Float
  pub div_float : Float → Float → Float
  pub leb_float : Float → Float → Bool
  pub ltb_float : Float → Float → Bool
  -- the conversion to int64
  pub trunc_float : Float → ℤ
  -- the seconds from the second time to the first
  pub seconds : ℤ → ℤ → Float

-- the length from which on a line ends the scan
abbrev pub max_token : ℕ
max_token = 65536

-- the lines that a scan of a file gives
unfoldable pub scan_lines : List Bytes → List Bytes
scan_lines [] = []
scan_lines (l ∷ ls) =
    let rest = scan_lines ls in if leb max_token (length l) then [] else drop_cr l ∷ rest

abbrev pub lines_of : Bytes → List Bytes
lines_of file = scan_lines (lines_from file [])

-- of uint64
pub record CpuTimes : Type 0 where
  pub idle : ℕ
  pub total : ℕ

abbrev is_idle : ℕ → Bool
is_idle i = i == 3 || i == 4

abbrev add_time : ℕ → Option ℕ → CpuTimes → CpuTimes
add_time i none t = t
add_time i (some n) t = record {
  idle = if is_idle i then (t.idle + n) % 2 ^ 64 else t.idle;
  total = (t.total + n) % 2 ^ 64;
}

-- the loop over the columns, which counts them
unfoldable pub cpu_times : ℕ → List Bytes → CpuTimes → CpuTimes
cpu_times i [] t = t
cpu_times i (v ∷ vs) t = cpu_times (suc i) vs (add_time i (to_option (parse_uint 10 64 v)) t)

abbrev behind_first : List Bytes → List Bytes
behind_first [] = []
behind_first (f ∷ fs) = fs

unfoldable pub parse_stat : List Bytes → Option CpuTimes
parse_stat [] = none
parse_stat (l ∷ ls) =
    let rest = parse_stat ls in
    if has_prefix (codes "cpu ") l
    then some (cpu_times 0 (behind_first (fields l)) (record { idle = 0; total = 0 }))
    else rest

pub record Meminfo : Type 0 where
  pub total_kb : ℤ
  pub avail_kb : ℤ

unfoldable pub mem_field : List Bytes → Meminfo → Meminfo
mem_field [] m = m
mem_field (k ∷ []) m = m
mem_field (k ∷ v ∷ fs) m =
    if same_bytes k (codes "MemTotal:")
    then record m { total_kb = value_or (pos 0) (parse_int 10 64 v) }
    else if same_bytes k (codes "MemAvailable:")
    then record m { avail_kb = value_or (pos 0) (parse_int 10 64 v) }
    else m

unfoldable pub mem_fields : List Bytes → Meminfo → Meminfo
mem_fields [] m = m
mem_fields (l ∷ ls) m = mem_fields ls (mem_field (fields l) m)

-- of int64
pub record NetCounters : Type 0 where
  pub rx_bytes : ℤ
  pub tx_bytes : ℤ

abbrev virtual : List Bytes
virtual =
    codes "veth"
    ∷ codes "docker"
    ∷ codes "br-"
    ∷ codes "virbr"
    ∷ codes "tun"
    ∷ codes "tap"
    ∷ codes "kube"
    ∷ []

abbrev starts_with_one : List Bytes → Bytes → Bool
starts_with_one [] name = false
starts_with_one (p ∷ ps) name = has_prefix p name || starts_with_one ps name

unfoldable pub skip_iface : Bytes → Bool
skip_iface name =
    same_bytes (trim_space name) (codes "lo") || starts_with_one virtual (trim_space name)

-- the counters of one interface
unfoldable pub iface_counters : List Bytes → Option NetCounters
iface_counters f = do
  rx ← get_elem? f 0
  tx ← get_elem? f 8
  some (record {
    rx_bytes = value_or (pos 0) (parse_int 10 64 rx);
    tx_bytes = value_or (pos 0) (parse_int 10 64 tx);
  })

abbrev pub no_counters : NetCounters
no_counters = record { rx_bytes = pos 0; tx_bytes = pos 0 }

abbrev pub add_counters : Option NetCounters → NetCounters → NetCounters
add_counters none nc = nc
add_counters (some c) nc = record {
  rx_bytes = nc.rx_bytes +64 c.rx_bytes;
  tx_bytes = nc.tx_bytes +64 c.tx_bytes;
}

abbrev pub iface_of : Option (Bytes × Bytes) → Option NetCounters
iface_of none = none
iface_of (some (name, columns)) = if skip_iface name then none else iface_counters (fields columns)

unfoldable pub net_lines : List Bytes → NetCounters → NetCounters
net_lines [] nc = nc
net_lines (l ∷ ls) nc = net_lines ls (add_counters (iface_of (cut_byte 58 l)) nc)

unfoldable pub parse_net_dev : Bytes → NetCounters
parse_net_dev file = net_lines (lines_of file) no_counters

unfoldable pub read_net : Option Bytes → NetCounters
read_net none = no_counters
read_net (some file) = parse_net_dev file

unfoldable pub read_cpu : Option Bytes → Option CpuTimes
read_cpu none = none
read_cpu (some file) = parse_stat (lines_of file)

abbrev kib : ℤ → ℤ
kib (pos n) = wrap64 (pos (n * 1024))
kib (negsuc n) = pos 0

module _ (floats : HostFloats) where
  open floats use {
    Float, zero_float, hundred, of_ℤ, sub_float, mul_float, div_float, leb_float, ltb_float,
  }

  unfoldable pub cpu_percent : CpuTimes → CpuTimes → Float
  cpu_percent prev cur =
      let dt = sub_float (of_ℤ (pos cur.total)) (of_ℤ (pos prev.total)) in
      let di = sub_float (of_ℤ (pos cur.idle)) (of_ℤ (pos prev.idle)) in
      let pct = mul_float (div_float (sub_float dt di) dt) hundred in
      if leb_float dt zero_float
      then zero_float
      else if ltb_float pct zero_float
      then zero_float
      else if ltb_float hundred pct
      then hundred
      else pct

  -- the share of the memory that is used, and the bytes of all
  unfoldable pub mem_percent : Meminfo → Float × ℤ
  mem_percent m =
      let used = m.total_kb -64 m.avail_kb in
      let used' = if ltb_ℤ used (pos 0) then pos 0 else used in
      if leb_ℤ m.total_kb (pos 0)
      then (zero_float, pos 0)
      else (mul_float (div_float (of_ℤ used') (of_ℤ m.total_kb)) hundred, kib m.total_kb)

  unfoldable pub parse_meminfo : Bytes → Float × ℤ
  parse_meminfo file =
      mem_percent (mem_fields (lines_of file) (record { total_kb = pos 0; avail_kb = pos 0 }))

  unfoldable pub read_mem : Option Bytes → Float × ℤ
  read_mem none = (zero_float, pos 0)
  read_mem (some file) = parse_meminfo file
