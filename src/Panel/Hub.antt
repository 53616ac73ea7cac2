-- ===== src/Panel/Hub.antt =====
-- The browsers of internal/panel/hub.go: the queue of a client and a broadcast. A message is the bytes of
-- its JSON. `Broadcast` and the sends of `sendInit` are the senders; that a client reads between the two
-- tests of `trySend` is not modelled.
pub mod Bounded
use frp_panel.Prelude.{
  ℕ, ◌==◌, Bool, true, false, Option, none, some, List, [], ◌∷◌, ◌++◌, if◌then◌else◌, ltb, length,
  map,
}
use frp_panel.Prelude.Text.{Bytes}

abbrev pub browser_send_buffer : ℕ
browser_send_buffer = 256

-- what a send to a channel with room for `browser_send_buffer` does, and whether it was possible
unfoldable pub offer : Bytes → List Bytes → List Bytes × Bool
offer b send =
    if ltb (length send) browser_send_buffer then (send ++ b ∷ [], true) else (send, false)

-- a receive, if something is there
unfoldable pub drop_oldest : List Bytes → List Bytes
drop_oldest [] = []
drop_oldest (b ∷ bs) = bs

unfoldable pub try_send : Bytes → List Bytes → List Bytes
try_send b send =
    let (send', done) = offer b send in if done then send' else (offer b (drop_oldest send)).0

-- a client by a number, and its queue
pub record BrowserClient : Type 0 where
  pub conn : ℕ
  pub send : List Bytes

unfoldable pub send_to : Bytes → BrowserClient → BrowserClient
send_to b c = record c { send = try_send b c.send }

-- `none` stands for a value that cannot be marshalled
unfoldable pub broadcast : Option Bytes → List BrowserClient → List BrowserClient
broadcast none cl = cl
broadcast (some b) cl = map (send_to b) cl

unfoldable pub join : ℕ → Bytes → List BrowserClient → List BrowserClient
join conn init cl = send_to init (record { conn = conn; send = [] }) ∷ cl

unfoldable pub leave : ℕ → List BrowserClient → List BrowserClient
leave conn [] = []
leave conn (c ∷ cs) = let rest = leave conn cs in if c.conn == conn then rest else c ∷ rest

unfoldable pub clients : List BrowserClient → ℕ
clients cl = length cl
