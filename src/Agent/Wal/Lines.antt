-- ===== src/Agent/Wal/Lines.antt =====
-- The lines of a file that records were appended to.
use frp_panel.Prelude.{
  ◌≤◌, ◌<◌, ◌==◌, ◌≡◌, refl, sym, ap, ap₂, ◌∙◌, true, false, some, List, [], ◌∷◌, ◌++◌, arith,
  append_assoc, append-nil, length, leb, Bool-cases, inl, inr,
}
use frp_panel.Agent.Wal.{
  Bytes, Json, TrafficRec, to_list, lines_from, drop_cr, record_of, read_lines, read_all, line_of,
  file_of, max_line, scanned,
}

-- no control character
abbrev pub Plain : Bytes → Type 0
Plain [] = Unit {0}
Plain (b ∷ bs) = (32 ≤ b) × Plain bs

-- What encoding/json promises of a record: what is written is read back, control characters are
-- escaped, and the text is not empty. The record fits into the buffer of the scan.
pub record Good (json : Json) (r : TrafficRec) : Type 0 where
  pub back : json.unmarshal (json.marshal r) ≡ some r
  pub plain : Plain (json.marshal r)
  pub some_bytes : 0 < length (json.marshal r)
  pub fits : length (json.marshal r) < max_line

abbrev pub AllGood : Json → List TrafficRec → Type 0
AllGood json [] = Unit {0}
AllGood json (r ∷ rs) = Good json r × AllGood json rs

pub AllGood-append :
    (json : Json) (rs ss : List TrafficRec)
    → AllGood json rs
    → AllGood json ss
    → AllGood json (rs ++ ss)
AllGood-append json [] ss h h' = h'
AllGood-append json (r ∷ rs) ss h h' = (h.0, AllGood-append json rs ss h.1 h')

pub lines_from-Plain :
    (bs cur rest : Bytes)
    → Plain bs
    → lines_from (bs ++ 10 ∷ rest) cur ≡ (cur ++ bs) ∷ lines_from rest []
unfolding lines_from
lines_from-Plain [] cur rest h = ap (λ l. l ∷ lines_from rest []) (sym (append-nil cur))
lines_from-Plain (b ∷ bs) cur rest h = elim (Bool-cases (b == 10)) [
  | inl e ↦ absurd (ground arith)
  | inr e ↦ rw e (
      lines_from-Plain bs (cur ++ b ∷ []) rest h.1
      ∙ ap (λ l. l ∷ lines_from rest []) (append_assoc cur (b ∷ []) bs))
]

drop_cr-Plain : (bs : Bytes) → Plain bs → drop_cr bs ≡ bs
unfolding drop_cr
drop_cr-Plain [] h = refl
drop_cr-Plain (b ∷ []) h = ground arith
drop_cr-Plain (b ∷ c ∷ bs) h = ap (λ l. b ∷ l) (drop_cr-Plain (c ∷ bs) h.1)

module _ (json : Json) where
  record_of-nonempty :
      (bs : Bytes) → 0 < length bs → record_of json bs ≡ to_list (json.unmarshal bs)
  unfolding record_of
  record_of-nonempty [] h = absurd (omega arith)
  record_of-nonempty (b ∷ bs) h = refl

  -- a first line that is whole
  pub read_all-line :
      (bs rest : Bytes)
      → Plain bs
      → 0 < length bs
      → length bs < max_line
      → read_all json (bs ++ 10 ∷ rest)
        ≡ (to_list (json.unmarshal bs) ++ (read_all json rest).0, (read_all json rest).1)
  unfolding read_all read_lines
  read_all-line bs rest h some_bytes short =
      rw
        (
          lines_from-Plain bs [] rest h,
          read_lines,
          not_long,
          drop_cr-Plain bs h,
          record_of-nonempty bs some_bytes,
        )
        refl
    where
      not_long : leb max_line (length bs) ≡ false
      not_long = ground arith

  pub scanned-read_lines : (ls : List Bytes) → scanned json ls ≡ (read_lines json ls).0
  unfolding scanned read_lines
  scanned-read_lines [] = refl
  scanned-read_lines (l ∷ ls) = elim (Bool-cases (leb max_line (length l))) [
    | inl h ↦ rw h refl
    | inr h ↦ rw h (ap (λ rs. record_of json (drop_cr l) ++ rs) (scanned-read_lines ls))
  ]

  -- Records that were written, and what follows them.
  pub read_all-file_of :
      (rs : List TrafficRec) (rest : Bytes)
      → AllGood json rs
      → read_all json (file_of json rs ++ rest)
        ≡ (rs ++ (read_all json rest).0, (read_all json rest).1)
  unfolding file_of line_of
  read_all-file_of [] rest h = refl
  read_all-file_of (r ∷ rs) rest (good, h) =
      ap (read_all json) (
        append_assoc (json.marshal r ++ 10 ∷ []) (file_of json rs) rest
        ∙ append_assoc (json.marshal r) (10 ∷ []) (file_of json rs ++ rest))
      ∙ read_all-line (json.marshal r) (file_of json rs ++ rest) good.plain good.some_bytes
          good.fits
      ∙ ap₂ (λ o q. (to_list o ++ q.0, q.1)) good.back (read_all-file_of rs rest h)

  pub read_all-written :
      (rs : List TrafficRec) → AllGood json rs → read_all json (file_of json rs) ≡ (rs, true)
  unfolding read_all read_lines lines_from
  read_all-written rs h =
      ap (read_all json) (sym (append-nil (file_of json rs)))
      ∙ read_all-file_of rs [] h
      ∙ ap (λ l. (l, true)) (append-nil rs)

  pub file_of-append :
      (rs ss : List TrafficRec) → file_of json (rs ++ ss) ≡ file_of json rs ++ file_of json ss
  unfolding file_of
  file_of-append [] ss = refl
  file_of-append (r ∷ rs) ss =
      ap (λ b. line_of json r ++ b) (file_of-append rs ss)
      ∙ sym (append_assoc (line_of json r) (file_of json rs) (file_of json ss))
