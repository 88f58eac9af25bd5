-- ===== src/SimpleSender.antt =====
-- network/src/simple_sender.rs: best-effort sending over one connection for each peer, that ends at the
-- first failure. What the network does is in the events.
pub mod BestEffort
use sailfish_test.Prelude.{
  take, ℕ, zero, suc, List, [], ◌∷◌, ◌++◌, Bool, true, false, Option, none, some, get, insert, map,
  if◌then◌else◌,
}
use sailfish_test.Config.{SocketAddr}

abbrev pub Bytes : Type 0
Bytes = List ℕ

-- Where `Connection::run` is; a connection that has ended has dropped its channel.
pub data Phase : Type 0 where
  connecting alive ended : Phase

pub record Connection : Type 0 where
  pub phase : Phase
  pub receiver : List Bytes

-- What happens to a connection: it is made or refused, it takes a message and writes it or fails to, and
-- a reply arrives or the peer is gone.
pub data Happening : Type 0 where
  connected refused : Happening
  takes : Bool → Happening
  replies : Bool → Happening

abbrev stop : Connection
stop = record { phase = ended; receiver = [] }

-- A step of a connection, and what it writes. What cannot happen in a phase changes nothing.
unfoldable pub advance : Happening → Phase → List Bytes → Connection × List Bytes
advance connected connecting queue = (record { phase = alive; receiver = queue }, [])
advance refused connecting queue = (stop, [])
advance (takes true) alive (message ∷ queue) =
    (record { phase = alive; receiver = queue }, message ∷ [])
advance (takes false) alive (message ∷ queue) = (stop, [])
advance (replies false) alive queue = (stop, [])
advance _ phase queue = (record { phase = phase; receiver = queue }, [])

pub record SimpleSender : Type 0 where
  pub connections : List (SocketAddr × Connection)
  -- The messages written so far, the oldest first.
  pub written : List (SocketAddr × Bytes)

unfoldable pub new_sender : SimpleSender
new_sender = record { connections = []; written = [] }

abbrev pub has_ended : Phase → Bool
has_ended ended = true
has_ended _ = false

-- A new connection, that ends at once or gets the message.
unfoldable pub open_connection : Bool → SocketAddr → Bytes → SimpleSender → SimpleSender
open_connection true address message s = record s {
  connections =
      insert address (record { phase = connecting; receiver = message ∷ [] }) s.connections;
}
open_connection false address message s = s

-- The connection that is there, if it has not ended, and a new one otherwise.
unfoldable pub send_on : Bool → SocketAddr → Bytes → Option Connection → SimpleSender → SimpleSender
unfolding open_connection
send_on started address message none s = open_connection started address message s
send_on started address message (some c) s =
    if has_ended c.phase then open_connection started address message s else record s {
      connections =
          insert address (record c { receiver = c.receiver ++ message ∷ [] }) s.connections;
    }

unfoldable pub send : Bool → SocketAddr → Bytes → SimpleSender → SimpleSender
unfolding send_on
send started address message s = send_on started address message (get address s.connections) s

unfoldable pub broadcast : Bool → List SocketAddr → Bytes → SimpleSender → SimpleSender
unfolding send
broadcast started [] message s = s
broadcast started (a ∷ addresses) message s =
    broadcast started addresses message (send started a message s)

-- With the shuffle of the crate rand, which is third-party code, at the state of the generator.
unfoldable pub lucky_broadcast :
    (List SocketAddr → List SocketAddr)
    → Bool
    → List SocketAddr
    → Bytes
    → ℕ
    → SimpleSender
    → SimpleSender
unfolding broadcast
lucky_broadcast shuffle started addresses message nodes s =
    broadcast started (take nodes (shuffle addresses)) message s

-- A caller sends, with whether a new connection would get the message, or the network acts.
pub data Event : Type 0 where
  sends : Bool → SocketAddr → Bytes → Event
  acts : SocketAddr → Happening → Event

unfoldable pub act_on : SocketAddr → Happening → Option Connection → SimpleSender → SimpleSender
unfolding advance
act_on address h none s = s
act_on address h (some c) s =
    let (c', out) = advance h c.phase c.receiver in
    record s {
      connections = insert address c' s.connections;
      written = s.written ++ map (λ m. (address, m)) out;
    }

unfoldable pub step : Event → SimpleSender → SimpleSender
unfolding send act_on
step (sends started address message) s = send started address message s
step (acts address h) s = act_on address h (get address s.connections) s

unfoldable pub run : List Event → SimpleSender → SimpleSender
unfolding step
run [] s = s
run (e ∷ es) s = run es (step e s)
