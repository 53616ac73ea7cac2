-- ===== src/Ports/Listening.antt =====
-- internal/portutil/portutil.go: which ports of the host are taken, by the files of the kernel. `open`
-- gives what a file holds, `processes` what /proc says of each process.
pub mod Taken
mod Tests
use frp_panel.Prelude.{
  ℕ, Bool, true, false, ◌||◌, ◌>>=◌, Option, none, some, List, [], ◌∷◌, ◌++◌, if◌then◌else◌, leb,
  length, get_elem?,
}
use frp_panel.Prelude.Int.{ℤ}
use frp_panel.Prelude.Text.{
  Bytes, codes, same_bytes, has_prefix, lower, fields, trim_space, after_last,
}
use frp_panel.Prelude.Decimal.{parse_int, to_option}
use frp_panel.Prelude.Assoc.{Assoc, lookup, insert, int_eq}
use frp_panel.Agent.Wal.{lines_from, drop_cr}

pub record SockEntry : Type 0 where
  pub local_port : ℤ
  pub state : Bytes
  pub inode : Bytes

abbrev pub tcp_listen : Bytes
tcp_listen = codes "0A"

-- A line that does not fit into the buffer ends the scan with an error.
abbrev pub max_row : ℕ
max_row = 1048576

-- the columns of a row
unfoldable pub entry_of : List Bytes → Option SockEntry
entry_of f = do
  local ← get_elem? f 1
  state ← get_elem? f 3
  inode ← get_elem? f 9
  hex ← after_last 58 local
  port ← to_option (parse_int 16 32 hex)
  some (record { local_port = port; state = state; inode = inode })

abbrev pub add_entry : Option SockEntry → List SockEntry → List SockEntry
add_entry none es = es
add_entry (some e) es = e ∷ es

-- the rows behind the header, and whether the scan went well
unfoldable pub parse_rows : List Bytes → List SockEntry × Bool
parse_rows [] = ([], true)
parse_rows (l ∷ ls) =
    let (es, ok) = parse_rows ls in
    if leb max_row (length l)
    then ([], false)
    else (add_entry (entry_of (fields (trim_space (drop_cr l)))) es, ok)

abbrev behind_header : List Bytes → List SockEntry × Bool
behind_header [] = ([], true)
behind_header (l ∷ ls) = if leb max_row (length l) then ([], false) else parse_rows ls

unfoldable pub parse_proc_net : Bytes → List SockEntry × Bool
parse_proc_net file = behind_header (lines_from file [])

abbrev pub is_udp : Bytes → Bool
is_udp proto = has_prefix (codes "udp") (lower proto)

abbrev put_new : ℤ → Bytes → Option Bytes → Assoc ℤ Bytes → Assoc ℤ Bytes
put_new port inode none m = insert port inode m
put_new port inode (some i) m = m

-- the loop over the entries
unfoldable pub collect : Bool → List SockEntry → Assoc ℤ Bytes → Assoc ℤ Bytes
collect udp [] m = m
collect udp (e ∷ es) m = collect udp es (
    if udp || same_bytes e.state tcp_listen
    then put_new e.local_port e.inode (lookup e.local_port m) m
    else m)

unfoldable pub listen_ports : List SockEntry → Bytes → Assoc ℤ Bytes
listen_ports entries proto = collect (is_udp proto) entries []

unfoldable pub proc_files : Bytes → List Bytes
proc_files proto =
    if is_udp proto
    then codes "/proc/net/udp" ∷ codes "/proc/net/udp6" ∷ []
    else codes "/proc/net/tcp" ∷ codes "/proc/net/tcp6" ∷ []

-- A process: its descriptors, where each is a link that can be read or not, and its name.
pub record Process : Type 0 where
  pub fds : Option (List (Option Bytes))
  pub comm : Option Bytes

unfoldable pub has_link : Bytes → List (Option Bytes) → Bool
has_link target [] = false
has_link target (none ∷ ls) = has_link target ls
has_link target (some l ∷ ls) = same_bytes l target || has_link target ls

abbrev name_of : Option Bytes → Option Bytes
name_of none = none
name_of (some comm) = some (trim_space comm)

abbrev links_of : Option (List (Option Bytes)) → List (Option Bytes)
links_of none = []
links_of (some ls) = ls

unfoldable pub owner : Bytes → List Process → Option Bytes
owner target [] = none
owner target (p ∷ ps) =
    let rest = owner target ps in if has_link target (links_of p.fds) then name_of p.comm else rest

unfoldable pub process_for_inode : Bytes → List Process → Option Bytes
process_for_inode inode ps =
    if same_bytes inode [] || same_bytes inode (codes "0")
    then none
    else owner (codes "socket:[" ++ inode ++ codes "]") ps

abbrev pub or_empty : Option Bytes → Bytes
or_empty none = []
or_empty (some b) = b

abbrev pub or_else : Option Bytes → Option Bytes → Option Bytes
or_else none o = o
or_else (some b) o = some b

abbrev entries_in : Option Bytes → List SockEntry
entries_in none = []
entries_in (some file) = (parse_proc_net file).0

abbrev pub answer : List Process → Option Bytes → Bool × Bytes
answer processes none = (false, [])
answer processes (some inode) = (true, or_empty (process_for_inode inode processes))

module _ (open_file : Bytes → Option Bytes) where
  -- the entries of a file, none of one that cannot be opened
  unfoldable pub entries_of : Bytes → List SockEntry
  entries_of path = entries_in (open_file path)

  -- the inode that the first file with the port has for it
  unfoldable pub first_inode : ℤ → Bytes → List Bytes → Option Bytes
  first_inode port proto [] = none
  first_inode port proto (path ∷ paths) =
      or_else (lookup port (listen_ports (entries_of path) proto)) (first_inode port proto paths)

  unfoldable pub local_listen : List Process → ℤ → Bytes → Bool × Bytes
  local_listen processes port proto = answer processes (first_inode port proto (proc_files proto))
