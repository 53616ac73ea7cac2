-- ===== src/Ports/Listening/Taken.antt =====
-- What `LocalListen` answers, from the rows of the files.
use frp_panel.Prelude.{
  ◌≡◌, refl, sym, ap, subst, ◌∙◌, Bool, false, ◌&&◌, ◌||◌, Option, none, some, List, [], ◌∷◌, ◌++◌,
  if◌then◌else◌, Bool-cases, inl, inr, arith,
}
use frp_panel.Prelude.Int.{ℤ, eqb_ℤ, eqb_ℤ_iff}
use frp_panel.Prelude.Text.{Bytes, same_bytes}
use frp_panel.Prelude.Assoc.{Assoc, lookup, lookup-insert, beq_refl, int_eq}
use frp_panel.Ports.Listening.{
  SockEntry, tcp_listen, is_udp, put_new, collect, listen_ports, proc_files, Process, answer,
  or_else, entries_of, first_inode, local_listen,
}

-- whether the row stands for a port that is taken
unfoldable pub occupies : Bool → ℤ → SockEntry → Bool
occupies udp port e = (udp || same_bytes e.state tcp_listen) && eqb_ℤ e.local_port port

unfoldable pub first_occupant : Bool → ℤ → List SockEntry → Option Bytes
first_occupant udp port [] = none
first_occupant udp port (e ∷ es) =
    let rest = first_occupant udp port es in if occupies udp port e then some e.inode else rest

or_else-none : (o : Option Bytes) → or_else o none ≡ o
or_else-none none = refl
or_else-none (some i) = refl

or_else_assoc : (o p q : Option Bytes) → or_else (or_else o p) q ≡ or_else o (or_else p q)
or_else_assoc none p q = refl
or_else_assoc (some i) p q = refl

put_new-same :
    (p : ℤ) (inode : Bytes) (m : Assoc ℤ Bytes) (o : Option Bytes)
    → lookup p m ≡ o
    → lookup p (put_new p inode o m) ≡ or_else o (some inode)
put_new-same p inode m none h = lookup-insert p p inode m ∙ (rw (beq_refl p) refl)
put_new-same p inode m (some i) h = h

put_new-other :
    (p port : ℤ) (inode : Bytes) (m : Assoc ℤ Bytes) (o : Option Bytes)
    → eqb_ℤ p port ≡ false
    → lookup port (put_new p inode o m) ≡ lookup port m
put_new-other p port inode m none h = lookup-insert p port inode m ∙ (rw h refl)
put_new-other p port inode m (some i) h = refl

lookup-put_new :
    (port p : ℤ) (inode : Bytes) (m : Assoc ℤ Bytes)
    → lookup port (put_new p inode (lookup p m) m)
      ≡ or_else (lookup port m) (if eqb_ℤ p port then some inode else none)
lookup-put_new port p inode m = elim (Bool-cases (eqb_ℤ p port)) [
  | inl same ↦ rw same (
      subst (λ q. lookup q (put_new p inode (lookup p m) m) ≡ or_else (lookup q m) (some inode))
        ((eqb_ℤ_iff p port).0 same) (put_new-same p inode m (lookup p m) refl))
  | inr other ↦
      rw other
        (put_new-other p port inode m (lookup p m) other ∙ sym (or_else-none (lookup port m)))
]

-- one row
put_entry : Bool → SockEntry → Assoc ℤ Bytes → Assoc ℤ Bytes
put_entry udp e m =
    if udp || same_bytes e.state tcp_listen
    then put_new e.local_port e.inode (lookup e.local_port m) m
    else m

lookup-put_entry :
    (udp : Bool) (port : ℤ) (e : SockEntry) (m : Assoc ℤ Bytes)
    → lookup port (put_entry udp e m)
      ≡ or_else (lookup port m) (if occupies udp port e then some e.inode else none)
unfolding put_entry occupies
lookup-put_entry udp port e m = elim (Bool-cases (udp || same_bytes e.state tcp_listen)) [
  | inl counts ↦ rw (counts, occupies) (lookup-put_new port e.local_port e.inode m)
  | inr idle ↦ rw (idle, occupies) (sym (or_else-none (lookup port m)))
]

lookup-collect :
    (udp : Bool) (port : ℤ) (es : List SockEntry) (m : Assoc ℤ Bytes)
    → lookup port (collect udp es m) ≡ or_else (lookup port m) (first_occupant udp port es)
unfolding collect first_occupant put_entry
lookup-collect udp port [] m = sym (or_else-none (lookup port m))
lookup-collect udp port (e ∷ es) m =
    lookup-collect udp port es (put_entry udp e m)
    ∙ ap (λ o. or_else o (first_occupant udp port es)) (lookup-put_entry udp port e m)
    ∙ or_else_assoc (lookup port m) (if occupies udp port e then some e.inode else none)
        (first_occupant udp port es)
    ∙ ground arith

first_occupant-append :
    (udp : Bool) (port : ℤ) (es fs : List SockEntry)
    → first_occupant udp port (es ++ fs)
      ≡ or_else (first_occupant udp port es) (first_occupant udp port fs)
unfolding first_occupant
first_occupant-append udp port [] fs = refl
first_occupant-append udp port (e ∷ es) fs = ground (arith, first_occupant-append udp port es fs)

-- the rows of the files, one after the other
unfoldable pub all_entries : (Bytes → Option Bytes) → List Bytes → List SockEntry
all_entries open_file [] = []
all_entries open_file (path ∷ paths) = entries_of open_file path ++ all_entries open_file paths

first_inode-all_entries :
    (open_file : Bytes → Option Bytes) (port : ℤ) (proto : Bytes) (paths : List Bytes)
    → first_inode open_file port proto paths
      ≡ first_occupant (is_udp proto) port (all_entries open_file paths)
unfolding first_inode all_entries first_occupant listen_ports lookup entries_of
first_inode-all_entries open_file port proto [] = refl
first_inode-all_entries open_file port proto (path ∷ paths) =
    ap (λ o. or_else o (first_inode open_file port proto paths))
      (lookup-collect (is_udp proto) port (entries_of open_file path) [])
    ∙ ap (or_else (first_occupant (is_udp proto) port (entries_of open_file path)))
        (first_inode-all_entries open_file port proto paths)
    ∙ sym (
        first_occupant-append (is_udp proto) port (entries_of open_file path)
          (all_entries open_file paths))

-- The answer for a port goes by the first row, over the two files of the protocol, that has the port
-- and, but for UDP, is in the state LISTEN: the port is taken if there is one, and the process is the
-- one with the socket of that row.
local_listen-first_occupant :
    (open_file : Bytes → Option Bytes) (processes : List Process) (port : ℤ) (proto : Bytes)
    → local_listen open_file processes port proto
      ≡ answer processes
          (first_occupant (is_udp proto) port (all_entries open_file (proc_files proto)))
unfolding local_listen
local_listen-first_occupant open_file processes port proto =
    ap (answer processes) (first_inode-all_entries open_file port proto (proc_files proto))
