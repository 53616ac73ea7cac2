-- ===== src/Agent/Wal.antt =====
-- internal/agent/wal.go: the log of the traffic records, one JSON line each. The disk is the bytes
-- of the file `traffic.wal`; that the system opens, renames and writes files is not modelled.
-- encoding/json is an argument.
pub mod Lines
pub mod Recover
mod Tests
use Prim.Native.String.{String}
use frp_panel.Prelude.{
  ℕ, ◌==◌, Bool, true, false, Option, none, some, List, [], ◌∷◌, ◌++◌, if◌then◌else◌, leb, length,
}
use frp_panel.Prelude.Int.{ℤ, pos, ◌+64◌, ltb_ℤ, leb_ℤ}

pub record ProxyDelta : Type 0 where
  pub remote_port : ℤ
  pub proto : String
  pub in_bytes : ℤ
  pub out_bytes : ℤ
  pub status : String

pub record TrafficRec : Type 0 where
  pub seq : ℤ
  pub at_ms : ℤ
  pub node_rx_delta : ℤ
  pub node_tx_delta : ℤ
  pub proxies : List ProxyDelta

abbrev pub Bytes : Type 0
Bytes = List ℕ

-- json.Marshal and json.Unmarshal
pub record Json : Type 0 where
  pub marshal : TrafficRec → Bytes
  pub unmarshal : Bytes → Option TrafficRec

-- the name `path` and the handle `f` are the file
pub record Wal : Type 0 where
  pub file : Bytes
  pub seq : ℤ

-- bufio.ScanLines: the lines of the bytes that are left, after what has been read of the first
unfoldable pub lines_from : Bytes → Bytes → List Bytes
lines_from [] [] = []
lines_from [] (c ∷ cur) = (c ∷ cur) ∷ []
lines_from (b ∷ bs) cur =
    let next = if b == 10 then [] else cur ++ b ∷ [] in
    let rest = lines_from bs next in if b == 10 then cur ∷ rest else rest

-- `dropCR` of bufio.ScanLines
unfoldable pub drop_cr : Bytes → Bytes
drop_cr [] = []
drop_cr (b ∷ []) = if b == 13 then [] else b ∷ []
drop_cr (b ∷ c ∷ bs) = b ∷ drop_cr (c ∷ bs)

-- A line that does not fit into the buffer ends the scan with an error.
abbrev pub max_line : ℕ
max_line = 4194304

abbrev pub to_list : Option TrafficRec → List TrafficRec
to_list none = []
to_list (some r) = r ∷ []

unfoldable pub max_seq : ℤ → List TrafficRec → ℤ
max_seq seq [] = seq
max_seq seq (r ∷ rs) = max_seq (if ltb_ℤ seq r.seq then r.seq else seq) rs

unfoldable pub next_seq : Wal → Wal × ℤ
next_seq w = let seq = w.seq +64 pos 1 in (record w { seq = seq }, seq)

-- the records that `fn` is called with: up to the first that it does not want more after
unfoldable pub stream_records : ℤ → (TrafficRec → Bool) → List TrafficRec → List TrafficRec
stream_records after fn [] = []
stream_records after fn (r ∷ rs) =
    let rest = stream_records after fn rs in
    if leb_ℤ r.seq after then rest else if fn r then r ∷ rest else r ∷ []

unfoldable pub keep_from : ℤ → List TrafficRec → List TrafficRec
keep_from cutoff [] = []
keep_from cutoff (r ∷ rs) =
    let rest = keep_from cutoff rs in if leb_ℤ cutoff r.at_ms then r ∷ rest else rest

module _ (json : Json) where
  -- an empty line and a line that does not parse are skipped
  unfoldable pub record_of : Bytes → List TrafficRec
  record_of [] = []
  record_of (b ∷ bs) = to_list (json.unmarshal (b ∷ bs))

  -- the records, and whether the scan ended without an error
  unfoldable pub read_lines : List Bytes → List TrafficRec × Bool
  read_lines [] = ([], true)
  read_lines (l ∷ ls) =
      let (recs, ok) = read_lines ls in
      if leb max_line (length l) then ([], false) else (record_of (drop_cr l) ++ recs, ok)

  unfoldable pub read_all : Bytes → List TrafficRec × Bool
  read_all file = read_lines (lines_from file [])

  -- a missing file is an empty one
  unfoldable pub open_wal : Bytes → Wal
  open_wal file =
      let (recs, ok) = read_all file in
      record { file = file; seq = if ok then max_seq (pos 0) recs else pos 0 }

  unfoldable pub line_of : TrafficRec → Bytes
  line_of r = json.marshal r ++ 10 ∷ []

  unfoldable pub append : Wal → TrafficRec → Wal
  append w r = record w { file = w.file ++ line_of r }

  -- The scan delivers what precedes a line that is too long.
  unfoldable pub scanned : List Bytes → List TrafficRec
  scanned [] = []
  scanned (l ∷ ls) =
      let rest = scanned ls in if leb max_line (length l) then [] else record_of (drop_cr l) ++ rest

  unfoldable pub stream : Wal → ℤ → (TrafficRec → Bool) → List TrafficRec
  stream w after fn = stream_records after fn (scanned (lines_from w.file []))

  -- the file that the encoder writes
  unfoldable pub file_of : List TrafficRec → Bytes
  file_of [] = []
  file_of (r ∷ rs) = line_of r ++ file_of rs

  unfoldable pub rotate : Wal → ℤ → Wal
  rotate w cutoff =
      let (recs, ok) = read_all w.file in
      let kept = keep_from cutoff recs in
      if ok then (if length kept == length recs then w else record w { file = file_of kept }) else w
