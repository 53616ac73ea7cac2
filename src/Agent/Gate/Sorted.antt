-- ===== src/Agent/Gate/Sorted.antt =====
-- Lists of records by their numbers.
use frp_panel.Prelude.{◌≡◌, List, [], ◌∷◌, ◌++◌, arith, Bool-cases, inl, inr}
use frp_panel.Prelude.Int.{ℤ, ◌≤ℤ◌, ◌<ℤ◌, leb_ℤ}
use frp_panel.Agent.Wal.{TrafficRec}
use frp_panel.Agent.Wal.Recover.{above, AllUpTo}

abbrev pub AllFrom : ℤ → List TrafficRec → Type 0
AllFrom seq [] = Unit {0}
AllFrom seq (r ∷ rs) = (seq ≤ℤ r.seq) × AllFrom seq rs

-- No number is below one that precedes it.
abbrev pub InOrder : List TrafficRec → Type 0
InOrder [] = Unit {0}
InOrder (r ∷ rs) = AllFrom r.seq rs × InOrder rs

pub AllUpTo-append :
    (seq : ℤ) (rs ss : List TrafficRec) → AllUpTo seq rs → AllUpTo seq ss → AllUpTo seq (rs ++ ss)
AllUpTo-append seq [] ss h k = k
AllUpTo-append seq (r ∷ rs) ss h k = (h.0, AllUpTo-append seq rs ss h.1 k)

pub AllUpTo-mono : (a b : ℤ) (rs : List TrafficRec) → a ≤ℤ b → AllUpTo a rs → AllUpTo b rs
AllUpTo-mono a b [] h k = tt
AllUpTo-mono a b (r ∷ rs) h k = (omega arith, AllUpTo-mono a b rs h k.1)

AllFrom-append_one :
    (seq : ℤ) (rs : List TrafficRec) (r : TrafficRec)
    → AllFrom seq rs
    → seq ≤ℤ r.seq
    → AllFrom seq (rs ++ r ∷ [])
AllFrom-append_one seq [] r h k = (k, tt)
AllFrom-append_one seq (x ∷ rs) r h k = (h.0, AllFrom-append_one seq rs r h.1 k)

pub InOrder-append_one :
    (rs : List TrafficRec) (r : TrafficRec) → InOrder rs → AllUpTo r.seq rs → InOrder (rs ++ r ∷ [])
InOrder-append_one [] r h k = (tt, tt)
InOrder-append_one (x ∷ rs) r h k =
    (AllFrom-append_one x.seq rs r h.0 k.0, InOrder-append_one rs r h.1 k.1)

AllFrom-above :
    (seq after : ℤ) (rs : List TrafficRec) → AllFrom seq rs → AllFrom seq (above after rs)
unfolding above
AllFrom-above seq after [] h = tt
AllFrom-above seq after (r ∷ rs) h = ground (arith, AllFrom-above seq after rs)

pub InOrder-above : (after : ℤ) (rs : List TrafficRec) → InOrder rs → InOrder (above after rs)
unfolding above
InOrder-above after [] h = tt
InOrder-above after (r ∷ rs) h =
    ground (arith, AllFrom-above r.seq after rs, InOrder-above after rs)

AllFrom-middle :
    (seq : ℤ) (rs : List TrafficRec) (r : TrafficRec) (ss : List TrafficRec)
    → AllFrom seq (rs ++ r ∷ ss)
    → seq ≤ℤ r.seq
AllFrom-middle seq [] r ss h = h.0
AllFrom-middle seq (x ∷ rs) r ss h = AllFrom-middle seq rs r ss h.1

AllFrom-prefix : (seq : ℤ) (rs ss : List TrafficRec) → AllFrom seq (rs ++ ss) → AllFrom seq rs
AllFrom-prefix seq [] ss h = tt
AllFrom-prefix seq (r ∷ rs) ss h = (h.0, AllFrom-prefix seq rs ss h.1)

pub InOrder-prefix : (rs ss : List TrafficRec) → InOrder (rs ++ ss) → InOrder rs
InOrder-prefix [] ss h = tt
InOrder-prefix (r ∷ rs) ss h = (AllFrom-prefix r.seq rs ss h.0, InOrder-prefix rs ss h.1)

pub above-append_one :
    (after : ℤ) (rs : List TrafficRec) (r : TrafficRec)
    → after <ℤ r.seq
    → above after (rs ++ r ∷ []) ≡ above after rs ++ r ∷ []
unfolding above
above-append_one after [] r h = ground arith
above-append_one after (x ∷ rs) r h = ground (arith, above-append_one after rs r h)

-- What lies above `b` is known once what lies above `a` is.
pub AllUpTo-above :
    (a b : ℤ) (rs : List TrafficRec) → a ≤ℤ b → AllUpTo b (above a rs) → AllUpTo b rs
unfolding above
AllUpTo-above a b [] h k = tt
AllUpTo-above a b (r ∷ rs) h k = elim (Bool-cases (leb_ℤ r.seq a)) [
  | inl below ↦ let k' = rw below at k in (ground arith, AllUpTo-above a b rs h k')
  | inr over ↦ let k' = rw over at k in (k'.0, AllUpTo-above a b rs h k'.1)
]

pub InOrder-AllUpTo :
    (rs : List TrafficRec) (r : TrafficRec) (ss : List TrafficRec)
    → InOrder (rs ++ r ∷ ss)
    → AllUpTo r.seq rs
InOrder-AllUpTo [] r ss h = tt
InOrder-AllUpTo (x ∷ rs) r ss h = (AllFrom-middle x.seq rs r ss h.0, InOrder-AllUpTo rs r ss h.1)

pub above-AllUpTo_keep :
    (a seq : ℤ) (rs : List TrafficRec) → AllUpTo seq rs → AllUpTo seq (above a rs)
unfolding above
above-AllUpTo_keep a seq [] h = tt
above-AllUpTo_keep a seq (r ∷ rs) h = ground (arith, above-AllUpTo_keep a seq rs)

pub AllUpTo-middle :
    (seq : ℤ) (rs : List TrafficRec) (r : TrafficRec) (ss : List TrafficRec)
    → AllUpTo seq (rs ++ r ∷ ss)
    → r.seq ≤ℤ seq
AllUpTo-middle seq [] r ss h = h.0
AllUpTo-middle seq (x ∷ rs) r ss h = AllUpTo-middle seq rs r ss h.1
