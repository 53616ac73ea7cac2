-- ===== src/Agent/Handshake.antt =====
-- `handleWS` up to the accepted handshake, `reader`, and the queue of a session (`enqueue`, `fanout`) in
-- internal/agent/server.go. The messages that arrive and the time are arguments. An instant of the
-- limiter is in nanoseconds, that of a signature in seconds.
pub mod Turned
mod Tests
use Prim.Native.String.{String}
use frp_panel.Prelude.{
  ℕ, Bool, true, false, not, ◌&&◌, Option, none, some, List, [], ◌∷◌, ◌++◌, if◌then◌else◌, ltb,
  length,
}
use frp_panel.Prelude.Int.{ℤ, pos, leb_ℤ}
use frp_panel.Prelude.Text.{Bytes, codes, same_bytes}
use frp_panel.Limiter.{Limiter, auth_policy, blocked, fail, success}
use frp_panel.Protocol.Message.{Hello, HelloAck}
use frp_panel.Protocol.Sign.{Envelope, Crypto, VerifyError, bad_sig, replay, verify}

-- what `ReadMessage` and `json.Unmarshal` give
pub data Message : Type 0 where
  read_failed garbage : Message
  envelope : Envelope → Message

-- `blocked` is asked at `now`, a failure is noted at `later`; `unix` is the time of the check of the
-- signature, and `upgraded` whether the connection could be upgraded.
pub record Attempt : Type 0 where
  pub ip : String
  pub now : ℕ
  pub later : ℕ
  pub unix : ℤ
  pub upgraded : Bool
  pub message : Message

pub data Outcome : Type 0 where
  too_many_failures not_upgraded no_message not_hello : Outcome
  refused : VerifyError → Outcome
  welcome : Envelope → Outcome

unfoldable pub hello_ack : Bytes → Bytes → ℤ → Bytes → Hello → HelloAck
hello_ack agent_version frps_version frps_port frps_token hello = record {
  agent_version = agent_version;
  frps_version = frps_version;
  proto = pos 2;
  frps_port = frps_port;
  frps_token = frps_token;
  compatible = leb_ℤ hello.min_agent_proto (pos 2);
  message =
      if leb_ℤ hello.min_agent_proto (pos 2)
      then []
      else codes "panel requires a newer agent protocol";
}

module _ (crypto : Crypto) (token : Bytes) where
  unfoldable pub check_hello : Attempt → Envelope → Option VerifyError → Limiter → Limiter × Outcome
  check_hello a e (some err) l = (fail auth_policy a.ip a.later l, refused err)
  check_hello a e none l = (success a.ip l, welcome e)

  unfoldable pub receive : Attempt → Message → Limiter → Limiter × Outcome
  receive a read_failed l = (l, no_message)
  receive a garbage l = (fail auth_policy a.ip a.later l, not_hello)
  receive a (envelope e) l =
      if same_bytes e.typ (codes "hello")
      then check_hello a e (verify crypto e token a.unix) l
      else (fail auth_policy a.ip a.later l, not_hello)

  unfoldable pub handshake : Attempt → Limiter → Limiter × Outcome
  handshake a l =
      let (l', is_blocked) = blocked a.ip a.now l in
      if is_blocked
      then (l', too_many_failures)
      else if not a.upgraded
      then (l', not_upgraded)
      else receive a a.message l'

  -- The envelopes that `reader` dispatches, of the messages with the times of their checks.
  unfoldable pub read_all : List (Message × ℤ) → List Envelope
  read_all [] = []
  read_all ((read_failed, unix) ∷ ms) = []
  read_all ((garbage, unix) ∷ ms) = read_all ms
  read_all ((envelope e, unix) ∷ ms) =
      let rest = read_all ms in
      elim (verify crypto e token unix) [
        | none ↦ e ∷ rest
        | some err ↦ elim err [ bad_sig ↦ [] | replay ↦ rest ]
      ]

abbrev pub send_buffer : ℕ
send_buffer = 128

-- a full queue drops the message
unfoldable pub enqueue : Envelope → List Envelope → List Envelope
enqueue env queue = if ltb (length queue) send_buffer then queue ++ env ∷ [] else queue

pub record Session : Type 0 where
  pub ready : Bool
  pub send : List Envelope

-- A message that is ordered by its number passes over the sessions that are not ready.
unfoldable pub fanout : Envelope → Bool → List Session → List Session
fanout env seq_ordered [] = []
fanout env seq_ordered (s ∷ ss) =
    (if seq_ordered && not s.ready then s else record s { send = enqueue env s.send })
    ∷ fanout env seq_ordered ss
