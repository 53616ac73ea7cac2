-- ===== src/Agent/Wal/Recover.antt =====
-- What the log gives back after a restart.
use frp_panel.Prelude.{
  ◌+◌, ◌≤◌, ◌<◌, ◌==◌, length-append, ◌^◌, ◌≡◌, refl, sym, ap, ap₂, subst, ◌∙◌, true, false, List,
  [], ◌∷◌, ◌++◌, arith, append_assoc, append-nil, length, if◌then◌else◌, Bool-cases, inl, inr,
}
use frp_panel.Prelude.Int.{
  ℤ, pos, negsuc, pos_part, ◌+ℤ◌, ◌+64◌, ◌≤ℤ◌, ltb_ℤ, leb_ℤ, IsInt64, wrap64_of_IsInt64, +ℤ_parts,
  int_laws, parts, neg_part,
}
use frp_panel.Agent.Wal.{
  Bytes, Json, TrafficRec, Wal, to_list, lines_from, read_lines, read_all, line_of, file_of,
  max_line, scanned, stream, stream_records, max_seq, open_wal, next_seq, append, rotate, keep_from,
}
use frp_panel.Agent.Wal.Lines.{
  Plain, AllGood, AllGood-append, scanned-read_lines, read_all-line, read_all-file_of,
  read_all-written, file_of-append,
}

-- The records above a number.
unfoldable pub above : ℤ → List TrafficRec → List TrafficRec
above after [] = []
above after (r ∷ rs) = let rest = above after rs in if leb_ℤ r.seq after then rest else r ∷ rest

abbrev pub AllUpTo : ℤ → List TrafficRec → Type 0
AllUpTo seq [] = Unit {0}
AllUpTo seq (r ∷ rs) = (r.seq ≤ℤ seq) × AllUpTo seq rs

max_seq-above : (rs : List TrafficRec) (seq : ℤ) → seq ≤ℤ max_seq seq rs
unfolding max_seq
max_seq-above [] seq = omega arith
max_seq-above (r ∷ rs) seq =
    ground (arith, max_seq-above rs (if ltb_ℤ seq r.seq then r.seq else seq))

max_seq-AllUpTo : (rs : List TrafficRec) (seq : ℤ) → AllUpTo (max_seq seq rs) rs
unfolding max_seq
max_seq-AllUpTo [] seq = tt
max_seq-AllUpTo (r ∷ rs) seq = (
  ground (arith, max_seq-above rs (if ltb_ℤ seq r.seq then r.seq else seq)),
  max_seq-AllUpTo rs (if ltb_ℤ seq r.seq then r.seq else seq),
)

above-append :
    (after : ℤ) (rs ss : List TrafficRec)
    → above after (rs ++ ss) ≡ above after rs ++ above after ss
unfolding above
above-append after [] ss = refl
above-append after (r ∷ rs) ss = elim (Bool-cases (leb_ℤ r.seq after)) [
  | inl h ↦ rw h (above-append after rs ss)
  | inr h ↦ rw h (ap (λ l. r ∷ l) (above-append after rs ss))
]

pub above-AllUpTo : (after : ℤ) (rs : List TrafficRec) → AllUpTo after rs → above after rs ≡ []
unfolding above
above-AllUpTo after [] h = refl
above-AllUpTo after (r ∷ rs) h = rw (low) (above-AllUpTo after rs h.1)
  where
    low : leb_ℤ r.seq after ≡ true
    low = ground arith

stream_records-always :
    (after : ℤ) (rs : List TrafficRec) → stream_records after (λ r. true) rs ≡ above after rs
unfolding stream_records above
stream_records-always after [] = refl
stream_records-always after (r ∷ rs) =
    ap (λ l. if leb_ℤ r.seq after then l else r ∷ l) (stream_records-always after rs)

-- The records of samples, numbered from the one after `seq` on.
unfoldable pub numbered : ℤ → List TrafficRec → List TrafficRec
numbered seq [] = []
numbered seq (r ∷ rs) = record r { seq = seq +64 pos 1 } ∷ numbered (seq +64 pos 1) rs

module _ (json : Json) where
  -- A sample takes the next number and is appended.
  unfoldable pub sample_all : Wal → List TrafficRec → Wal
  sample_all w [] = w
  sample_all w (r ∷ rs) =
      let (w', seq) = next_seq w in sample_all (append json w' (record r { seq = seq })) rs

  file-sample_all :
      (ps : List TrafficRec) (w : Wal)
      → (sample_all w ps).file ≡ w.file ++ file_of json (numbered w.seq ps)
  unfolding sample_all file_of numbered next_seq append
  file-sample_all [] w = sym (append-nil w.file)
  file-sample_all (p ∷ ps) w =
      file-sample_all ps _
      ∙ append_assoc w.file (line_of json _) (file_of json (numbered (w.seq +64 pos 1) ps))

step_parts :
    (seq : ℤ)
    → (pos_part (seq +ℤ pos 1) ≤ pos_part seq + 1) × (neg_part (seq +ℤ pos 1) ≤ neg_part seq)
unfolding ◌+ℤ◌
step_parts (pos n) = ground arith
step_parts (negsuc n) = ground arith

no_overflow : (seq : ℤ) → IsInt64 seq → pos_part seq + 1 < 2 ^ 63 → seq +64 pos 1 ≡ seq +ℤ pos 1
unfolding ◌+64◌
no_overflow seq i b =
    wrap64_of_IsInt64 (seq +ℤ pos 1) (omega (arith, step_parts seq), omega (arith, step_parts seq))

above-numbered :
    (after seq : ℤ) (ps : List TrafficRec)
    → after ≤ℤ seq
    → IsInt64 seq
    → pos_part seq + length ps < 2 ^ 63
    → above after (numbered seq ps) ≡ numbered seq ps
unfolding above numbered
above-numbered after seq [] h i b = refl
above-numbered after seq (p ∷ ps) h i b = rw higher (
    ap (λ l. record p { seq = seq +64 pos 1 } ∷ l)
      (above-numbered after (seq +64 pos 1) ps (omega (int_laws, parts up))
        (omega (arith, parts up, step_parts seq), omega (arith, parts up, step_parts seq))
        (omega (arith, parts up, step_parts seq))))
  where
    up : seq +64 pos 1 ≡ seq +ℤ pos 1
    up = no_overflow seq i (omega arith)

    higher : leb_ℤ (seq +64 pos 1) after ≡ false
    higher = ground (arith, up, +ℤ_parts seq (pos 1))

Plain-append : (bs cs : Bytes) → Plain bs → Plain cs → Plain (bs ++ cs)
Plain-append [] cs h h' = h'
Plain-append (b ∷ bs) cs h h' = (h.0, Plain-append bs cs h.1 h')

length-keep_from : (cutoff : ℤ) (rs : List TrafficRec) → length (keep_from cutoff rs) ≤ length rs
unfolding keep_from
length-keep_from cutoff [] = omega arith
length-keep_from cutoff (r ∷ rs) = ground (arith, length-keep_from cutoff rs)

keep_from-all :
    (cutoff : ℤ) (rs : List TrafficRec)
    → length (keep_from cutoff rs) ≡ length rs
    → keep_from cutoff rs ≡ rs
unfolding keep_from
keep_from-all cutoff [] h = refl
keep_from-all cutoff (r ∷ rs) h = elim (Bool-cases (leb_ℤ cutoff r.at_ms)) [
  | inl young ↦ rw young (ap (λ l. r ∷ l) (keep_from-all cutoff rs (ground arith)))
  | inr old ↦ absurd (ground (arith, length-keep_from cutoff rs))
]

AllGood-keep_from :
    (json : Json) (cutoff : ℤ) (rs : List TrafficRec)
    → AllGood json rs
    → AllGood json (keep_from cutoff rs)
unfolding keep_from
AllGood-keep_from json cutoff [] h = tt
AllGood-keep_from json cutoff (r ∷ rs) h = elim (Bool-cases (leb_ℤ cutoff r.at_ms)) [
  | inl young ↦ rw young (h.0, AllGood-keep_from json cutoff rs h.1)
  | inr old ↦ rw old (AllGood-keep_from json cutoff rs h.1)
]

module _ (json : Json) where
  scanned-file_of :
      (rs : List TrafficRec) → AllGood json rs → scanned json (lines_from (file_of json rs) []) ≡ rs
  unfolding read_all
  scanned-file_of rs h =
      scanned-read_lines json (lines_from (file_of json rs) [])
      ∙ ap (λ p. p.0) (read_all-written json rs h)

  seq-open_wal :
      (rs : List TrafficRec)
      → AllGood json rs
      → (open_wal json (file_of json rs)).seq ≡ max_seq (pos 0) rs
  unfolding open_wal
  seq-open_wal rs h =
      ap (λ q. if q.1 then max_seq (pos 0) q.0 else pos 0) (read_all-written json rs h)

  stream-written :
      (rs ps : List TrafficRec) (w : Wal)
      → w.file ≡ file_of json rs
      → AllUpTo w.seq rs
      → AllGood json rs
      → AllGood json (numbered w.seq ps)
      → IsInt64 w.seq
      → pos_part w.seq + length ps < 2 ^ 63
      → stream json (sample_all json w ps) w.seq (λ r. true) ≡ numbered w.seq ps
  unfolding stream
  stream-written rs ps w e old h h' i b =
      stream_records-always w.seq (scanned json (lines_from (sample_all json w ps).file []))
      ∙ ap (above w.seq) (
          ap (λ f. scanned json (lines_from f []))
            (file-sample_all json ps w
              ∙ ap (λ f. f ++ file_of json new) e
              ∙ sym (file_of-append json rs new))
          ∙ scanned-file_of (rs ++ new) (AllGood-append json rs new h h'))
      ∙ above-append w.seq rs new
      ∙ ap₂ ◌++◌ (above-AllUpTo w.seq rs old) (above-numbered w.seq w.seq ps (omega arith) i b)
    where
      new : List TrafficRec
      new = numbered w.seq ps

  -- After a restart the log goes on where its records ended: however many records it held and
  -- however many samples were taken since, a replay from the number it had recovered gives the
  -- samples, numbered from the next one on, if JSON gives each record back and the numbers do not
  -- overflow.
  pub stream-sample_all :
      (rs ps : List TrafficRec)
      → let w = open_wal json (file_of json rs) in
        AllGood json rs
        → AllGood json (numbered w.seq ps)
        → IsInt64 w.seq
        → pos_part w.seq + length ps < 2 ^ 63
        → stream json (sample_all json w ps) w.seq (λ r. true) ≡ numbered w.seq ps
  unfolding open_wal
  stream-sample_all rs ps h h' i b =
      stream-written rs ps (open_wal json (file_of json rs)) refl
        (subst (λ seq. AllUpTo seq rs) (sym (seq-open_wal rs h)) (max_seq-AllUpTo rs (pos 0))) h h'
        i b

  -- A crash in the middle of a write leaves the start `torn` of a line. After a restart, the next
  -- record is written behind it on the same line: the log gives back the records before, if JSON
  -- does, and of the new one what the two parse to together.
  pub read_all-torn :
      (rs : List TrafficRec) (torn : Bytes) (r : TrafficRec)
      → AllGood json rs
      → Plain torn
      → Plain (json.marshal r)
      → 0 < length (json.marshal r)
      → length (torn ++ json.marshal r) < max_line
      → read_all json (append json (open_wal json (file_of json rs ++ torn)) r).file
        ≡ (rs ++ to_list (json.unmarshal (torn ++ json.marshal r)), true)
  unfolding append open_wal line_of read_all read_lines lines_from
  read_all-torn rs torn r good h h' some_bytes short =
      ap (read_all json) (
        append_assoc (file_of json rs) torn (line_of json r)
        ∙ ap (λ b. file_of json rs ++ b) (sym (append_assoc torn (json.marshal r) (10 ∷ []))))
      ∙ read_all-file_of json rs (torn ++ json.marshal r ++ 10 ∷ []) good
      ∙ ap (λ q. (rs ++ q.0, q.1))
          (read_all-line json (torn ++ json.marshal r) [] (Plain-append torn (json.marshal r) h h')
              (omega (arith, length-append torn (json.marshal r))) short
            ∙ ap (λ l. (l, true)) (append-nil (to_list (json.unmarshal (torn ++ json.marshal r)))))

  -- A rotation keeps the records that are young enough, in order, if JSON gives each record back.
  read_all-rotate :
      (rs : List TrafficRec) (seq cutoff : ℤ)
      → AllGood json rs
      → read_all json (rotate json (record { file = file_of json rs; seq = seq }) cutoff).file
        ≡ (keep_from cutoff rs, true)
  unfolding rotate
  read_all-rotate rs seq cutoff h =
      rw (read_all-written json rs h, rotate)
        (elim (Bool-cases (length (keep_from cutoff rs) == length rs)) [
          | inl same ↦ rw same (
              read_all-written json rs h
              ∙ ap (λ l. (l, true)) (sym (keep_from-all cutoff rs (ground arith))))
          | inr fewer ↦
              rw fewer
                (read_all-written json (keep_from cutoff rs) (AllGood-keep_from json cutoff rs h))
        ])
