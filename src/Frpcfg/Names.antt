-- ===== src/Frpcfg/Names.antt =====
-- `ProxyName` and `ParseProxyName`.
use frp_panel.Prelude.{◌==◌, ◌≡◌, refl, Option, none, some, [], ◌∷◌, ◌++◌, arith, if◌then◌else◌}
use frp_panel.Prelude.Int.{ℤ, IsInt64}
use frp_panel.Prelude.Text.{Bytes, cut_byte}
use frp_panel.Prelude.Decimal.{decimal, parse_int, to_option}
use frp_panel.Prelude.Decimal.ReadBack.{parse_int-decimal, decimal-Without, cut_byte-append}

-- "m%d_n%d"
unfoldable pub proxy_name : ℤ → ℤ → Bytes
proxy_name mapping node = 109 ∷ decimal mapping ++ 95 ∷ 110 ∷ decimal node

abbrev pub both : Option ℤ → Option ℤ → Option (ℤ × ℤ)
both none n = none
both (some m) none = none
both (some m) (some n) = some (m, n)

-- what follows the first '_', after the number in front of it
unfoldable pub parse_node : Bytes → Bytes → Option (ℤ × ℤ)
parse_node m [] = none
parse_node m (b ∷ n) =
    if b == 110 then both (to_option (parse_int 10 64 m)) (to_option (parse_int 10 64 n)) else none

unfoldable pub parse_parts : Option (Bytes × Bytes) → Option (ℤ × ℤ)
parse_parts none = none
parse_parts (some (m, n)) = parse_node m n

unfoldable pub parse_proxy_name : Bytes → Option (ℤ × ℤ)
parse_proxy_name [] = none
parse_proxy_name (b ∷ name) = if b == 109 then parse_parts (cut_byte 95 name) else none

-- The numbers of a mapping and of a node are read back from the name of their proxy.
pub parse-proxy_name :
    (mapping node : ℤ)
    → IsInt64 mapping
    → IsInt64 node
    → parse_proxy_name (proxy_name mapping node) ≡ some (mapping, node)
unfolding parse_proxy_name proxy_name parse_node parse_parts
parse-proxy_name m n hm hn =
    rw
      (
        cut_byte-append 95 (decimal m) (110 ∷ decimal n) (decimal-Without 95 m (omega arith)),
        parse_int-decimal m hm,
        parse_int-decimal n hn,
      )
      refl
