-- ===== src/Selfupdate.antt =====
-- internal/selfupdate/selfupdate.go, with `runSelfUpdate` of internal/agent/server.go, which calls it. The
-- HTTP server, the SHA-256 of a file in hex and the writes of files are arguments. A text is its bytes.
pub mod Verified
mod Tests
use frp_panel.Prelude.{
  ℕ, ◌*◌, ◌^◌, ◌==◌, Bool, true, false, not, ◌&&◌, Option, none, some, List, [], ◌∷◌, ◌++◌,
  if◌then◌else◌, ltb, length, take,
}
use frp_panel.Prelude.Text.{Bytes, codes, same_bytes, split, fields, lower, trim_space}

abbrev pub max_asset_size : ℕ
max_asset_size = 256 * 2 ^ 20

-- what the client gets for a URL: nothing, or a status and a body
abbrev pub Http : Type 0
Http = Bytes → Option (ℕ × Bytes)

-- strings.TrimRight of "/"
unfoldable pub trim_slashes : Bytes → Bytes
trim_slashes [] = []
trim_slashes (b ∷ bs) = elim (trim_slashes bs) [
  | [] ↦ if b == 47 then [] else b ∷ []
  | c ∷ cs ↦ b ∷ c ∷ cs
]

unfoldable pub body_of : Option (ℕ × Bytes) → Option Bytes
body_of none = none
body_of (some (status, body)) = if status == 200 then some (take max_asset_size body) else none

unfoldable pub fetch_one : Http → Bytes → Option Bytes
fetch_one http url = body_of (http url)

unfoldable pub url_of : Bytes → Bytes → Bytes
url_of base name = trim_slashes base ++ 47 ∷ name

abbrev or_else : Option Bytes → Option Bytes → Option Bytes
or_else (some b) other = some b
or_else none other = other

unfoldable pub from_mirror : Http → Bytes → Bytes → Option Bytes
from_mirror http [] url = none
from_mirror http (m ∷ ms) url = fetch_one http (url_of (m ∷ ms) url)

unfoldable pub fetch : Http → Bytes → Bytes → Bytes → Option Bytes
fetch http base mirror name =
    or_else (fetch_one http (url_of base name))
      (from_mirror http (trim_space mirror) (url_of base name))

-- strings.TrimPrefix of "*"
unfoldable pub without_star : Bytes → Bytes
without_star [] = []
without_star (b ∷ bs) = if b == 42 then bs else b ∷ bs

-- the sum of a line, if it is one of the file
unfoldable pub sum_of : Bytes → List Bytes → Option Bytes
sum_of name [] = none
sum_of name (f ∷ []) = none
sum_of name (f ∷ g ∷ rest) = if same_bytes (without_star g) name then some (lower f) else none

unfoldable pub sum_in : Bytes → List Bytes → Option Bytes
sum_in name [] = none
sum_in name (line ∷ lines) = or_else (sum_of name (fields line)) (sum_in name lines)

unfoldable pub sum_for : Bytes → Bytes → Option Bytes
sum_for sums name = sum_in name (split 10 sums)

-- the binary and the file that it is staged in
pub record Files : Type 0 where
  pub target : Bytes
  pub staged : Option Bytes

-- Does os.WriteFile fail, and with what in the file, and does os.Rename?
pub record Disk : Type 0 where
  pub write_fails : Option (Option Bytes)
  pub rename_fails : Bool

pub data UpdateError : Type 0 where
  no_sums no_entry no_asset too_small wrong_sum not_replaced : UpdateError

abbrev written : Option (Option Bytes) → Bytes → Files → Bool → Files × Bool
written (some partial) bin fs rename_fails = (record fs { staged = partial }, false)
written none bin fs rename_fails =
    if rename_fails
    then (record fs { staged = none }, false)
    else (record { target = bin; staged = none }, true)

-- the files, and whether the binary was replaced
unfoldable pub apply : Disk → Bytes → Files → Files × Bool
apply disk bin fs = written disk.write_fails bin fs disk.rename_fails

module _ (sha256_hex : Bytes → Bytes) (http : Http) (disk : Disk) where
  unfoldable pub install : Bytes → Files → Files × Option UpdateError
  install bin fs =
      let (fs', replaced) = apply disk bin fs in (fs', if replaced then none else some not_replaced)

  unfoldable pub check_asset : Bytes → Option Bytes → Files → Files × Option UpdateError
  check_asset want none fs = (fs, some no_asset)
  check_asset want (some bin) fs =
      if ltb (length bin) (2 ^ 20)
      then (fs, some too_small)
      else if not (same_bytes (sha256_hex bin) want)
      then (fs, some wrong_sum)
      else install bin fs

  unfoldable pub get_asset :
      Bytes → Bytes → Bytes → Option Bytes → Files → Files × Option UpdateError
  get_asset base mirror asset none fs = (fs, some no_entry)
  get_asset base mirror asset (some want) fs = check_asset want (fetch http base mirror asset) fs

  unfoldable pub with_sums :
      Bytes → Bytes → Bytes → Option Bytes → Files → Files × Option UpdateError
  with_sums base mirror asset none fs = (fs, some no_sums)
  with_sums base mirror asset (some sums) fs = get_asset base mirror asset (sum_for sums asset) fs

  -- `Run`
  unfoldable pub run : Bytes → Bytes → Bytes → Files → Files × Option UpdateError
  run base mirror asset fs =
      with_sums base mirror asset (fetch http base mirror (codes "sha256sums.txt")) fs

-- What `runSelfUpdate` does: `updating`, the files, and whether the agent restarts; `exe_known` says
-- whether the path of the binary could be had, and `arch` is the architecture.
unfoldable pub run_self_update :
    (Bytes → Bytes) → Http → Disk → Bool → Bytes → Bytes → Bytes → Files → Bool × Files × Bool
run_self_update sha256_hex http disk exe_known arch base mirror fs =
    if not exe_known
    then (false, fs, false)
    else let (fs', err) =
        run sha256_hex http disk base mirror (codes "frpanel-agent-" ++ arch) fs in
      (false, fs', elim err [ none ↦ true | some e ↦ false ])
