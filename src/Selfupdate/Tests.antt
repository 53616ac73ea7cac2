-- ===== src/Selfupdate/Tests.antt =====
-- A server that is down, and one whose sum for the binary is wrong.
use frp_panel.Prelude.{false, none, some, [], if◌then◌else◌}
use frp_panel.Prelude.Text.{Bytes, codes, same_bytes}
use frp_panel.Selfupdate.{Http, Files, Disk, run}
use frp_panel.Selfupdate.Verified.{IsVerified, run-IsVerified}

-- Each file is its own sum.
abbrev same_sum : Bytes → Bytes
same_sum b = b

abbrev sums : Bytes
sums = codes "0abc  *agent"

abbrev server : Http
server url =
    if same_bytes url (codes "http://u/sha256sums.txt")
    then some (200, sums)
    else some (200, codes "x")

abbrev good_disk : Disk
good_disk = record { write_fails = none; rename_fails = false }

abbrev files : Files
files = record { target = codes "old"; staged = none }

run-IsVerified_example :
    IsVerified same_sum server good_disk
      (codes "http://u/")
      []
      (codes "agent")
      files
      (run same_sum server good_disk (codes "http://u/") [] (codes "agent") files)
run-IsVerified_example =
    run-IsVerified same_sum server good_disk (codes "http://u/") [] (codes "agent") files
