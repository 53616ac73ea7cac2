-- ===== src/Panel/Link/Answered.antt =====
-- Which reply answers a request.
use frp_panel.Prelude.{
  ◌≡◌, refl, ap, subst, ◌∙◌, true, false, not, ◌&&◌, Option, none, some, List, [], ◌∷◌,
  if◌then◌else◌, Bool-cases, inl, inr, arith,
}
use frp_panel.Prelude.Text.{Bytes, bytes_eq, same_bytes, same_bytes_iff}
use frp_panel.Prelude.Assoc.{lookup, insert, lookup-insert}
use frp_panel.Protocol.Sign.{Envelope}
use frp_panel.Panel.Link.{Pending, store_request, is_push, fill, handle}

-- the messages that arrive, one after the other
unfoldable pub handle_all : List Envelope → Pending → Pending
handle_all [] p = p
handle_all (e ∷ es) p = handle_all es (handle e p)

-- the first message that is no push and has the number
unfoldable pub first_reply : Bytes → List Envelope → Option Envelope
first_reply id [] = none
first_reply id (e ∷ es) =
    let rest = first_reply id es in
    if same_bytes e.id id && not (is_push e.typ) then some e else rest

abbrev or_first : Option Envelope → Option Envelope → Option Envelope
or_first none r = r
or_first (some e) r = some e

-- what one message does to the channel of a request
abbrev receive : Bytes → Option Envelope → Envelope → Option Envelope
receive id o e = if same_bytes e.id id && not (is_push e.typ) then or_first o (some e) else o

same_refl : (id : Bytes) → same_bytes id id ≡ true
same_refl id = (same_bytes_iff id id).1 refl

lookup-fill :
    (id : Bytes) (e : Envelope) (p : Pending) (o : Option Envelope) (r : Option (Option Envelope))
    → lookup id p ≡ some o
    → lookup e.id p ≡ r
    → lookup id (fill r e p) ≡ some (if same_bytes e.id id then or_first o (some e) else o)
lookup-fill id e p o none h k = elim (Bool-cases (same_bytes e.id id)) [
  | inl same ↦
      let k' = subst (λ j. lookup j p ≡ none) ((same_bytes_iff e.id id).0 same) k in absurd (cc)
  | inr other ↦ rw other h
]
lookup-fill id e p none (some none) h k = lookup-insert e.id id (some e) p ∙ ground (arith, h)
lookup-fill id e p (some f) (some none) h k = elim (Bool-cases (same_bytes e.id id)) [
  | inl same ↦
      let k' = subst (λ j. lookup j p ≡ some none) ((same_bytes_iff e.id id).0 same) k in
      absurd (cc)
  | inr other ↦ lookup-insert e.id id (some e) p ∙ rw other h
]
lookup-fill id e p none (some (some f)) h k = elim (Bool-cases (same_bytes e.id id)) [
  | inl same ↦
      let k' = subst (λ j. lookup j p ≡ some (some f)) ((same_bytes_iff e.id id).0 same) k in
      absurd (cc)
  | inr other ↦ rw other h
]
lookup-fill id e p (some g) (some (some f)) h k = ground (arith, h)

lookup-handle :
    (id : Bytes) (e : Envelope) (p : Pending) (o : Option Envelope)
    → same_bytes id [] ≡ false
    → lookup id p ≡ some o
    → lookup id (handle e p) ≡ some (receive id o e)
unfolding handle
lookup-handle id e p o named h = elim (Bool-cases (is_push e.typ)) [
  | inl push ↦ rw push (h ∙ ground arith)
  | inr reply ↦ elim (Bool-cases (same_bytes e.id [])) [
    | inl nameless ↦
        rw (reply, nameless)
          (h ∙ ground (arith, same_bytes_iff e.id [], same_bytes_iff e.id id, same_bytes_iff id []))
    | inr named' ↦ rw (reply, named') (lookup-fill id e p o (lookup e.id p) h refl ∙ ground arith)
  ]
]

lookup-handle_all :
    (id : Bytes) (es : List Envelope) (p : Pending) (o : Option Envelope)
    → same_bytes id [] ≡ false
    → lookup id p ≡ some o
    → lookup id (handle_all es p) ≡ some (or_first o (first_reply id es))
unfolding handle_all first_reply
lookup-handle_all id [] p none named h = h
lookup-handle_all id [] p (some f) named h = h
lookup-handle_all id (e ∷ es) p o named h =
    lookup-handle_all id es (handle e p) (receive id o e) named (lookup-handle id e p o named h)
    ∙ ap some (join o)
  where
    join :
        (o : Option Envelope)
        → or_first (receive id o e) (first_reply id es)
          ≡ or_first o
              (if same_bytes e.id id && not (is_push e.typ) then some e else first_reply id es)
    join none = ground arith
    join (some f) = ground arith

-- A request is answered by the first message with its number that is no push, whatever else arrives
-- for it or for other requests; its number is not empty.
pub request-first_reply :
    (id : Bytes) (es : List Envelope) (p : Pending)
    → same_bytes id [] ≡ false
    → lookup id (handle_all es (store_request id p)) ≡ some (first_reply id es)
unfolding store_request
request-first_reply id es p named =
    lookup-handle_all id es (insert id none p) none named
      (lookup-insert id id none p ∙ rw (same_refl id) refl)
