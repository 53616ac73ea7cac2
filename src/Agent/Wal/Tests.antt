-- ===== src/Agent/Wal/Tests.antt =====
-- A toy JSON of records that have nothing but a number and a time, below 100 each.
use frp_panel.Prelude.{ℕ, ◌+◌, ◌-◌, ◌≡◌, refl, true, none, some, Option, [], ◌∷◌, ◌++◌, arith}
use frp_panel.Prelude.Int.{pos, pos_part, ◌+64◌, ◌+ℤ◌, wrap64}
use frp_panel.Agent.Wal.{
  Bytes, Json, TrafficRec, open_wal, append, stream, read_all, file_of, line_of, read_lines,
  lines_from, record_of, drop_cr, max_seq,
}
use frp_panel.Agent.Wal.Recover.{numbered, sample_all, stream-sample_all, read_all-torn}

abbrev rec : ℕ → ℕ → TrafficRec
rec n at = record {
  seq = pos n;
  at_ms = pos at;
  node_rx_delta = pos 0;
  node_tx_delta = pos 0;
  proxies = [];
}

abbrev toy_marshal : TrafficRec → Bytes
toy_marshal r = (32 + pos_part r.seq) ∷ (32 + pos_part r.at_ms) ∷ []

abbrev toy_unmarshal : Bytes → Option TrafficRec
toy_unmarshal (a ∷ b ∷ []) = some (rec (a - 32) (b - 32))
toy_unmarshal bs = none

abbrev toy : Json
toy = record { marshal = toy_marshal; unmarshal = toy_unmarshal }

stream-sample_all_example :
    stream toy
      (sample_all toy
        (open_wal toy (file_of toy (rec 4 10 ∷ rec 5 15 ∷ [])))
        (rec 0 20 ∷ rec 0 25 ∷ []))
      (open_wal toy (file_of toy (rec 4 10 ∷ rec 5 15 ∷ []))).seq
      (λ r. true)
    ≡ numbered
        (open_wal toy (file_of toy (rec 4 10 ∷ rec 5 15 ∷ []))).seq
        (rec 0 20 ∷ rec 0 25 ∷ [])
unfolding numbered open_wal read_all read_lines lines_from file_of line_of record_of drop_cr max_seq
    ◌+64◌ ◌+ℤ◌ wrap64
stream-sample_all_example =
    stream-sample_all toy (rec 4 10 ∷ rec 5 15 ∷ []) (rec 0 20 ∷ rec 0 25 ∷ [])
      (
        record {
          back = refl;
          plain = (omega arith, (omega arith, tt));
          some_bytes = omega arith;
          fits = omega arith;
        },
        (
          record {
            back = refl;
            plain = (omega arith, (omega arith, tt));
            some_bytes = omega arith;
            fits = omega arith;
          },
          tt,
        ),
      )
      (
        record {
          back = refl;
          plain = (omega arith, (omega arith, tt));
          some_bytes = omega arith;
          fits = omega arith;
        },
        (
          record {
            back = refl;
            plain = (omega arith, (omega arith, tt));
            some_bytes = omega arith;
            fits = omega arith;
          },
          tt,
        ),
      )
      (omega arith, omega arith) (omega arith)

-- The torn line makes a line of four bytes with the next record: that record is not read back.
read_all-torn_example :
    read_all toy
      (append toy (open_wal toy (file_of toy (rec 4 10 ∷ []) ++ 37 ∷ 47 ∷ [])) (rec 6 20)).file
    ≡ (rec 4 10 ∷ [], true)
read_all-torn_example =
    read_all-torn toy (rec 4 10 ∷ []) (37 ∷ 47 ∷ []) (rec 6 20)
      (
        record {
          back = refl;
          plain = (omega arith, (omega arith, tt));
          some_bytes = omega arith;
          fits = omega arith;
        },
        tt,
      )
      (omega arith, (omega arith, tt)) (omega arith, (omega arith, tt)) (omega arith) (omega arith)
