-- ===== src/Procmetrics/Tests.antt =====
-- A host whose counters of the network cannot be read once.
use frp_panel.Prelude.{◌≡◌, refl, Option, none, some, List, [], ◌∷◌, ◌++◌, arith}
use frp_panel.Prelude.Int.{ℤ, pos, ◌+ℤ◌, ◌-ℤ◌, ◌+64◌, wrap64, ltb_ℤ, leb_ℤ}
use frp_panel.Prelude.Text.{
  Bytes, codes, same_bytes, has_prefix, cut_byte, fields_from, trim_left, trim_right, is_space,
}
use frp_panel.Prelude.Decimal.{digit_of, parse_digits, parse_uint, parse_int}
use frp_panel.Agent.Wal.{lines_from, drop_cr}
use frp_panel.Procmetrics.Parse.{
  HostFloats, scan_lines, skip_iface, iface_counters, net_lines, parse_net_dev, read_net, cpu_times,
  parse_stat, read_cpu,
}
use frp_panel.Procmetrics.Collector.{Proc, NetBase}
use frp_panel.Procmetrics.Collector.Counted.{
  received, counter, reported, last_counter, fallen, reported-risen,
}

-- whole numbers in place of floats
abbrev whole : HostFloats
whole = record {
  Float = ℤ;
  zero_float = pos 0;
  hundred = pos 100;
  of_ℤ = λ a. a;
  sub_float = λ a b. a -ℤ b;
  mul_float = λ a b. a;
  div_float = λ a b. a;
  leb_float = leb_ℤ;
  ltb_float = ltb_ℤ;
  trunc_float = λ a. a;
  seconds = λ a b. a -ℤ b;
}

abbrev net_dev : Bytes → Bytes
net_dev rx =
    codes "Inter-|   Receive"
    ++ 10 ∷ codes "    lo: 999 0 0 0 0 0 0 0 999 0"
    ++ 10 ∷ codes "  eth0: "
    ++ rx
    ++ codes " 5 0 0 0 0 0 0 70 1"
    ++ 10 ∷ codes "veth12: 500 5 0 0 0 0 0 0 500 1"
    ++ 10 ∷ []

eth0_alone :
    read_net (some (net_dev (codes "1000"))) ≡ record { rx_bytes = pos 1000; tx_bytes = pos 70 }
unfolding read_net parse_net_dev net_lines scan_lines lines_from drop_cr cut_byte skip_iface
    iface_counters same_bytes has_prefix fields_from trim_left trim_right is_space digit_of
    parse_digits parse_uint parse_int ◌+64◌ ◌+ℤ◌ wrap64
eth0_alone = refl

-- The columns of idle time are the fourth and the fifth; one is no number.
idle_time :
    read_cpu (some (codes "cpu  10 20 x 40 5 6" ++ 10 ∷ []))
    ≡ some (record { idle = 45; total = 81 })
unfolding read_cpu parse_stat cpu_times scan_lines lines_from drop_cr has_prefix fields_from
    is_space digit_of parse_digits parse_uint
idle_time = refl

abbrev with_net : Option Bytes → Proc
with_net file = record { stat = none; meminfo = none; net_dev = file }

abbrev run : List (Proc × ℤ)
run =
    (with_net (some (net_dev (codes "1000"))), pos 1)
    ∷ (with_net none, pos 2)
    ∷ (with_net (some (net_dev (codes "1500"))), pos 3)
    ∷ []

abbrev base : NetBase
base = record { prev_net = record { rx_bytes = pos 400; tx_bytes = pos 0 }; prev_time = pos 0 }

counters :
    (counter received (with_net (some (net_dev (codes "1000")))) ≡ pos 1000)
    × (counter received (with_net none) ≡ pos 0)
    × (counter received (with_net (some (net_dev (codes "1500")))) ≡ pos 1500)
unfolding counter read_net parse_net_dev net_lines scan_lines lines_from drop_cr cut_byte skip_iface
    iface_counters same_bytes has_prefix fields_from trim_left trim_right is_space digit_of
    parse_digits parse_uint parse_int ◌+64◌ ◌+ℤ◌ wrap64
counters = (refl, refl, refl)

reported-risen_example :
    reported whole received run (record { cpu = none; net = some base }) +ℤ pos 400
    ≡ last_counter received run (pos 400) +ℤ fallen received run (pos 400)
unfolding counter read_net parse_net_dev net_lines scan_lines lines_from drop_cr cut_byte skip_iface
    iface_counters same_bytes has_prefix fields_from trim_left trim_right is_space digit_of
    parse_digits parse_uint parse_int ◌+64◌ ◌+ℤ◌ wrap64
reported-risen_example =
    reported-risen whole received run none base (ground arith) (ground arith) (ground arith)
