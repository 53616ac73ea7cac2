-- ===== src/Agent/Frps.antt =====
-- internal/agent/frps.go and internal/agent/frpsapi.go: frps as a unit of systemd and its admin API.
-- The answers of the API, the files and the commands are arguments.
use Prim.Native.String.{String}
use frp_panel.Prelude.{Bool, true, false, Option, none, some, List, [], ◌∷◌, ◌++◌, if◌then◌else◌}
use frp_panel.Prelude.Int.{ℤ, pos}
use frp_panel.Prelude.Text.{Bytes, codes, same_bytes, trim_space}
use frp_panel.Protocol.Message.{ProxyInfo}

-- one proxy of `proxyResp`
pub record RawProxy : Type 0 where
  pub name : Bytes
  -- the remote port, if there is a `conf`
  pub conf : Option ℤ
  pub today_traffic_in : ℤ
  pub today_traffic_out : ℤ
  pub status : String

abbrev remote_port_of : Option ℤ → ℤ
remote_port_of none = pos 0
remote_port_of (some port) = port

unfoldable pub infos : String → List RawProxy → List ProxyInfo
infos proto [] = []
infos proto (p ∷ ps) =
    record {
      name = p.name;
      proto = proto;
      remote_port = remote_port_of p.conf;
      status = p.status;
      today_in = p.today_traffic_in;
      today_out = p.today_traffic_out;
    }
    ∷ infos proto ps

-- the proxies so far, and whether it failed
unfoldable pub proxies_of : List String → (String → Option (List RawProxy)) → List ProxyInfo × Bool
proxies_of [] get = ([], false)
proxies_of (proto ∷ protos) get = elim (get proto) [
  | none ↦ ([], true)
  | some ps ↦ let (rest, failed) = proxies_of protos get in (infos proto ps ++ rest, failed)
]

-- `FrpsClient.Proxies`, with the answers of "/api/proxy/tcp" and "/api/proxy/udp"
unfoldable pub proxies : (String → Option (List RawProxy)) → List ProxyInfo × Bool
proxies get = proxies_of ("tcp" ∷ "udp" ∷ []) get

pub data RestartError : Type 0 where
  save_failed toml_failed systemctl_failed : RestartError

-- `run` runs a command; `write_toml` and `save` write the two files of a token.
module _ {W : Type 0} (run : List Bytes → W → W × Bytes × Bool)
    (write_toml save : Bytes → W → W × Bool) (frps_bin : Bytes) where
  unfoldable pub restart_unit : W → W × Option RestartError
  restart_unit w =
      let (w', out, ok) = run (codes "systemctl" ∷ codes "restart" ∷ codes "frps" ∷ []) w in
      (w', if ok then none else some RestartError.systemctl_failed)

  unfoldable pub restart : Bytes → W → W × Option RestartError
  restart token w =
      let (w', ok) = write_toml token w in
      if ok then restart_unit w' else (w', some RestartError.toml_failed)

  -- the token afterwards; an empty one asks for a restart only
  unfoldable pub rotate_token : Bytes → Bytes → W → W × Bytes × Option RestartError
  rotate_token [] token w = let (w', err) = restart token w in (w', token, err)
  rotate_token (b ∷ bs) token w =
      let (w', ok) = save (b ∷ bs) w in
      let (w'', err) = restart (b ∷ bs) w' in
      if ok then (w'', b ∷ bs, err) else (w', b ∷ bs, some RestartError.save_failed)

  unfoldable pub ensure_up : W → W
  ensure_up w =
      let (w', out, ok) = run (codes "systemctl" ∷ codes "is-active" ∷ codes "frps" ∷ []) w in
      if same_bytes out (codes "active")
      then w'
      else (run (codes "systemctl" ∷ codes "start" ∷ codes "frps" ∷ []) w').0

  unfoldable pub bin_version : W → W × Bytes
  bin_version w =
      let (w', out, ok) = run (frps_bin ∷ codes "--version" ∷ []) w in
      (w', if ok then trim_space out else [])
