-- ===== src/ReliableSender.antt =====
-- network/src/reliable_sender.rs: one connection for each peer, that transmits its messages again until
-- they are acknowledged or cancelled. What the network does (connecting, writing, answers) is in the
-- events; a handler is the number of its oneshot channel.
pub mod Flush
pub mod Order
pub mod Delay
use sailfish_test.Prelude.{
  take, ℕ, zero, suc, ◌+◌, ◌*◌, List, [], ◌∷◌, ◌++◌, map, Bool, true, false, not, Option, none,
  some, leb, if◌then◌else◌, retain, get, insert, unwrap_or, contains, add32,
}
use sailfish_test.Config.{SocketAddr}

abbrev pub Bytes : Type 0
Bytes = List ℕ

abbrev pub Handler : Type 0
Handler = ℕ

pub record InnerMessage : Type 0 where
  pub data_ : Bytes
  pub cancel_handler : Handler

-- Where `run` and `keep_alive` are.
pub data Phase : Type 0 where
  connecting waiting alive : Phase

pub record Connection : Type 0 where
  pub retry_delay : ℕ
  pub buffer : List InnerMessage
  pub delay : ℕ
  pub retry : ℕ
  pub phase : Phase
  pub pending_replies : List InnerMessage
  -- The handlers that the callers have dropped.
  pub closed : List Handler
  -- The messages whose handlers were notified so far, with the answers, the oldest first.
  pub acked : List (InnerMessage × Bytes)

-- `Connection::spawn`, and the start of `run`.
unfoldable pub spawn : Connection
spawn = record {
  retry_delay = 200;
  buffer = [];
  delay = 200;
  retry = 0;
  phase = connecting;
  pending_replies = [];
  closed = [];
  acked = [];
}

abbrev pub is_open : List Handler → InnerMessage → Bool
is_open closed m = not (contains closed m.cancel_handler)

-- The end of `keep_alive`: what is not acknowledged goes back into the buffer.
unfoldable pub disconnect : Connection → Connection
disconnect c = record c {
  buffer = c.pending_replies ++ c.buffer;
  pending_replies = [];
  phase = connecting;
}

-- The `while let` over the buffer, with the outcomes of the attempts to send: messages that are
-- cancelled are skipped, and the first failure ends the connection. Without an outcome an attempt
-- succeeds.
unfoldable pub flush : List InnerMessage → List Bool → Connection → Connection
unfolding disconnect
flush [] results c = record c { buffer = [] }
flush (m ∷ rest) results c =
    if is_open c.closed m
    then elim results [
      | [] ↦ flush rest [] (record c { pending_replies = c.pending_replies ++ m ∷ [] })
      | ◌∷◌ sent later ↦
          if sent
          then flush rest later (record c { pending_replies = c.pending_replies ++ m ∷ [] })
          else disconnect (record c { buffer = m ∷ rest })
    ]
    else flush rest results c

-- An answer: of the oldest message that was sent, or something has gone wrong.
unfoldable pub answer : Option Bytes → List InnerMessage → Connection → Connection
unfolding disconnect
answer response [] c = disconnect c
answer none (m ∷ pending) c = disconnect c
answer (some bytes) (m ∷ pending) c = record c {
  pending_replies = pending;
  acked = c.acked ++ (m, bytes) ∷ [];
}

pub data Arm : Type 0 where
  receive : InnerMessage → Arm
  respond : Option Bytes → Arm

-- What happens: a connection is made or refused, the timer of the wait, a message for it while it waits, a
-- turn of `keep_alive`, and a caller that drops its handler.
pub data Event : Type 0 where
  connected : Event
  refused : Event
  timer : Event
  drained : InnerMessage → Event
  turn : List Bool → Arm → Event
  dropped : Handler → Event

abbrev pub min : ℕ → ℕ → ℕ
min a b = if leb a b then a else b

unfoldable pub select : Arm → Connection → Connection
unfolding answer
select (receive m) c = record c { buffer = c.buffer ++ m ∷ [] }
select (respond response) c = answer response c.pending_replies c

-- The `select` is only reached if no attempt to send has failed.
unfoldable pub select_alive : Arm → Phase → Connection → Connection
unfolding select
select_alive arm alive c = select arm c
select_alive arm _ c = c

-- Events that cannot happen in a phase change nothing.
unfoldable pub step : Event → Phase → Connection → Connection
unfolding flush select_alive
step connected connecting c = record c { phase = alive; delay = c.retry_delay; retry = 0 }
step refused connecting c = record c { phase = waiting }
step timer waiting c = record c {
  phase = connecting;
  delay = min (2 * c.delay) 60000;
  retry = add32 c.retry 1;
}
step (drained m) waiting c = record c { buffer = retain (is_open c.closed) (c.buffer ++ m ∷ []) }
step (turn results arm) alive c = let c' = flush c.buffer results c in select_alive arm c'.phase c'
step (dropped h) _ c = record c { closed = h ∷ c.closed }
step _ _ c = c

unfoldable pub run : List Event → Connection → Connection
unfolding step
run [] c = c
run (e ∷ es) c = run es (step e c.phase c)

-- The sender: the messages in the channels to its connections, and the handlers it has given out.
pub record ReliableSender : Type 0 where
  pub connections : List (SocketAddr × List InnerMessage)
  pub next_handler : Handler

unfoldable pub send : SocketAddr → Bytes → ReliableSender → Handler × ReliableSender
send address bytes s = (
  s.next_handler,
  record s {
    connections =
        insert address
          (unwrap_or [] (get address s.connections)
            ++ record { data_ = bytes; cancel_handler = s.next_handler } ∷ [])
          s.connections;
    next_handler = suc s.next_handler;
  },
)

unfoldable pub broadcast : List SocketAddr → Bytes → ReliableSender → List Handler × ReliableSender
unfolding send
broadcast [] bytes s = ([], s)
broadcast (a ∷ addresses) bytes s =
    let (h, s') = send a bytes s in let (hs, s'') = broadcast addresses bytes s' in (h ∷ hs, s'')

-- With the shuffle of the crate rand, which is third-party code, at the state of the generator.
unfoldable pub lucky_broadcast :
    (List SocketAddr → List SocketAddr)
    → List SocketAddr
    → Bytes
    → ℕ
    → ReliableSender
    → List Handler × ReliableSender
unfolding broadcast
lucky_broadcast shuffle addresses bytes nodes s = broadcast (take nodes (shuffle addresses)) bytes s
