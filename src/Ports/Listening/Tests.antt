-- ===== src/Ports/Listening/Tests.antt =====
-- The answers of `LocalListen` for some files, in the form of the source's own tests.
use frp_panel.Prelude.{
  ◌≡◌, refl, true, false, Option, none, some, List, [], ◌∷◌, ◌++◌, if◌then◌else◌,
}
use frp_panel.Prelude.Int.{pos}
use frp_panel.Prelude.Text.{
  Bytes, codes, same_bytes, has_prefix, lower, fields_from, trim_right, trim_left, after_last,
  is_space,
}
use frp_panel.Prelude.Assoc.{lookup, insert}
use frp_panel.Prelude.Decimal.{digit_of, parse_digits, parse_int, parse_uint}
use frp_panel.Agent.Wal.{lines_from, drop_cr}
use frp_panel.Ports.Listening.{
  Process, proc_files, local_listen, first_inode, listen_ports, collect, entries_of, parse_proc_net,
  parse_rows, entry_of, has_link, owner, process_for_inode,
}

-- Port 22 listens, 8080 is the end of a connection.
abbrev tcp_file : Bytes
tcp_file =
    codes "  sl  local_address rem_address   st"
    ++ 10 ∷ codes "   0: 00000000:0016 00000000:0000 0A 0:0 00:0 0 0 0 12345 1"
    ++ 10 ∷ codes "   1: 0100007F:1F90 00000000:0000 01 0:0 00:0 0 0 0 23456 1"
    ++ 10 ∷ []

abbrev udp_file : Bytes
udp_file =
    codes "  sl  local_address rem_address   st"
    ++ 10 ∷ codes "   0: 00000000:0035 00000000:0000 07 0:0 00:0 0 0 0 99999 2"
    ++ 10 ∷ []

-- There are no files for IPv6.
abbrev files : Bytes → Option Bytes
files path =
    if same_bytes path (codes "/proc/net/tcp")
    then some tcp_file
    else if same_bytes path (codes "/proc/net/udp")
    then some udp_file
    else none

abbrev running : List Process
running =
    record { fds = none; comm = some (codes "init") }
    ∷ record {
      fds = some (none ∷ some (codes "socket:[12345]") ∷ []);
      comm = some (codes "sshd" ++ 10 ∷ []);
    }
    ∷ []

-- Port 53 is bound by a process that is not known.
listening_ports :
    (local_listen files running (pos 22) (codes "tcp") ≡ (true, codes "sshd"))
    × (local_listen files running (pos 8080) (codes "tcp") ≡ (false, []))
    × (local_listen files running (pos 53) (codes "UDP") ≡ (true, []))
unfolding local_listen first_inode proc_files has_prefix lower lookup listen_ports collect
    entries_of same_bytes parse_proc_net lines_from parse_rows entry_of fields_from trim_right
    trim_left drop_cr has_link owner process_for_inode insert digit_of parse_digits parse_int
    parse_uint after_last is_space
listening_ports = (refl, refl, refl)
