-- ===== src/Panel/Hub/Bounded.antt =====
-- What a client's queue holds.
use frp_panel.Prelude.{
  zero, suc, ◌+◌, ◌-◌, ◌≤◌, ◌≡◌, refl, sym, ap, ap₂, ◌∙◌, true, false, Option, none, some, List, [],
  ◌∷◌, ◌++◌, ltb, length, map, length-append, append_assoc, append-nil, drop, length-drop,
  Bool-cases, inl, inr, arith,
}
use frp_panel.Prelude.Text.{Bytes}
use frp_panel.Metrics.Ring.Round.{keep_last, keep_last-keep_last}
use frp_panel.Panel.Hub.{offer, drop_oldest, try_send, BrowserClient, send_to, broadcast}

-- A queue that is full loses its oldest entry.
keep_last-full :
    (x : Bytes) (xs : List Bytes) (b : Bytes)
    → length xs ≡ 255
    → keep_last 256 (x ∷ xs ++ b ∷ []) ≡ xs ++ b ∷ []
keep_last-full x xs b h =
    ap (λ n. drop n (x ∷ (xs ++ b ∷ []))) {x = suc (length (xs ++ b ∷ [])) - 256} {y = suc zero}
      (omega (arith, length-append xs (b ∷ [])))

keep_last-short : (xs : List Bytes) → length xs ≤ 256 → keep_last 256 xs ≡ xs
keep_last-short xs h = ap (λ n. drop n xs) {x = length xs - 256} {y = zero} (omega arith)

keep_last-room :
    (xs : List Bytes) (b : Bytes)
    → length xs + 1 ≤ 256
    → keep_last 256 (xs ++ b ∷ []) ≡ xs ++ b ∷ []
keep_last-room xs b h =
    ap (λ n. drop n (xs ++ b ∷ [])) {x = length (xs ++ b ∷ []) - 256} {y = zero}
      (omega (arith, length-append xs (b ∷ [])))

offer-room : (b : Bytes) (q : List Bytes) → length q + 1 ≤ 256 → offer b q ≡ (q ++ b ∷ [], true)
unfolding offer
offer-room b q h = ground arith

offer-full : (b : Bytes) (q : List Bytes) → length q ≡ 256 → offer b q ≡ (q, false)
unfolding offer
offer-full b q h = ground arith

try_send-full :
    (b : Bytes) (q : List Bytes) → length q ≡ 256 → try_send b q ≡ keep_last 256 (q ++ b ∷ [])
unfolding try_send drop_oldest
try_send-full b [] h = absurd (omega arith)
try_send-full b (x ∷ xs) h =
    rw (offer-full b (x ∷ xs) h) (ap (λ r. r.0) (offer-room b xs (omega arith)))
    ∙ sym (keep_last-full x xs b (omega arith))

try_send-keep_last :
    (b : Bytes) (q : List Bytes) → length q ≤ 256 → try_send b q ≡ keep_last 256 (q ++ b ∷ [])
unfolding try_send
try_send-keep_last b q h = elim (Bool-cases (ltb (length q) 256)) [
  | inl room ↦ rw (offer-room b q (ground arith)) (sym (keep_last-room q b (ground arith)))
  | inr full ↦ try_send-full b q (ground arith)
]

length-keep_last : (xs : List Bytes) → length (keep_last 256 xs) ≤ 256
length-keep_last xs = omega (arith, length-drop (length xs - 256) xs)

-- some values that are broadcast, one after the other
unfoldable pub broadcast_all : List (Option Bytes) → List BrowserClient → List BrowserClient
broadcast_all [] cl = cl
broadcast_all (v ∷ vs) cl = broadcast_all vs (broadcast v cl)

abbrev add_value : Option Bytes → List Bytes → List Bytes
add_value none bs = bs
add_value (some b) bs = b ∷ bs

-- those that can be marshalled
unfoldable pub marshalled : List (Option Bytes) → List Bytes
marshalled [] = []
marshalled (v ∷ vs) = add_value v (marshalled vs)

-- a client that was sent some messages and has read none
abbrev pub with_last : List Bytes → BrowserClient → BrowserClient
with_last bs c = record c { send = keep_last 256 (c.send ++ bs) }

abbrev pub AllShort : List BrowserClient → Type 0
AllShort [] = Unit {0}
AllShort (c ∷ cs) = (length c.send ≤ 256) × AllShort cs

nothing_sent : (cl : List BrowserClient) → AllShort cl → cl ≡ map (with_last []) cl
nothing_sent [] h = refl
nothing_sent (c ∷ cs) h =
    ap₂ (λ q r. record c { send = q } ∷ r)
      (sym (ap (keep_last 256) (append-nil c.send) ∙ keep_last-short c.send h.0))
      (nothing_sent cs h.1)

sent_one :
    (b : Bytes) (cl : List BrowserClient)
    → AllShort cl
    → map (send_to b) cl ≡ map (with_last (b ∷ [])) cl
unfolding send_to
sent_one b [] h = refl
sent_one b (c ∷ cs) h =
    ap₂ (λ q r. record c { send = q } ∷ r) (try_send-keep_last b c.send h.0) (sent_one b cs h.1)

AllShort-with_last : (bs : List Bytes) (cl : List BrowserClient) → AllShort (map (with_last bs) cl)
AllShort-with_last bs [] = tt
AllShort-with_last bs (c ∷ cs) = (length-keep_last (c.send ++ bs), AllShort-with_last bs cs)

with_last-with_last :
    (b : Bytes) (bs : List Bytes) (cl : List BrowserClient)
    → map (with_last bs) (map (with_last (b ∷ [])) cl) ≡ map (with_last (b ∷ bs)) cl
with_last-with_last b bs [] = refl
with_last-with_last b bs (c ∷ cs) =
    ap₂ (λ q r. record c { send = q } ∷ r)
      (keep_last-keep_last 256 (c.send ++ b ∷ []) bs
        ∙ ap (keep_last 256) (append_assoc c.send (b ∷ []) bs))
      (with_last-with_last b bs cs)

-- Of the values that are broadcast while it reads none, each client's queue has the last 256, with
-- what it had before, in their order; a value that cannot be marshalled is left out. Its queue had
-- no more than 256 before.
pub broadcast_all-keep_last :
    (vs : List (Option Bytes)) (cl : List BrowserClient)
    → AllShort cl
    → broadcast_all vs cl ≡ map (with_last (marshalled vs)) cl
unfolding broadcast_all broadcast marshalled
broadcast_all-keep_last [] cl h = nothing_sent cl h
broadcast_all-keep_last (none ∷ vs) cl h = broadcast_all-keep_last vs cl h
broadcast_all-keep_last (some b ∷ vs) cl h =
    ap (broadcast_all vs) (sent_one b cl h)
    ∙ broadcast_all-keep_last vs (map (with_last (b ∷ [])) cl) (AllShort-with_last (b ∷ []) cl)
    ∙ with_last-with_last b (marshalled vs) cl
