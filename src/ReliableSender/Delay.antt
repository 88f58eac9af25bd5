-- ===== src/ReliableSender/Delay.antt =====
-- The delays of network/src/reliable_sender.rs.
use sailfish_test.Prelude.{◌≤◌, ◌≡◌, refl, List, [], ◌∷◌, Option, none, some, arith, ◌∙◌}
use sailfish_test.ReliableSender.{
  InnerMessage, Connection, Phase, connecting, waiting, alive, Event, connected, refused, timer,
  drained, turn, dropped, Arm, receive, respond, spawn, disconnect, flush, answer, select,
  select_alive, step, run, Bytes,
}
use sailfish_test.ReliableSender.Flush.{flush-IsFlushed}

record IsBounded (c : Connection) : Type 0 where
  first : c.retry_delay ≡ 200
  low : 200 ≤ c.delay
  high : c.delay ≤ 60000

answer-IsBounded :
    (response : Option Bytes) (pending : List InnerMessage) (c : Connection)
    → IsBounded c
    → IsBounded (answer response pending c)
unfolding answer disconnect
answer-IsBounded response [] c q = record { first = q.first; low = q.low; high = q.high }
answer-IsBounded none (m ∷ pending) c q = record { first = q.first; low = q.low; high = q.high }
answer-IsBounded (some bytes) (m ∷ pending) c q = record {
  first = q.first;
  low = q.low;
  high = q.high;
}

select_alive-IsBounded :
    (arm : Arm) (p : Phase) (c : Connection) → IsBounded c → IsBounded (select_alive arm p c)
unfolding select_alive select
select_alive-IsBounded (receive m) alive c q = record {
  first = q.first;
  low = q.low;
  high = q.high;
}
select_alive-IsBounded (respond r) alive c q = answer-IsBounded r c.pending_replies c q
select_alive-IsBounded arm connecting c q = q
select_alive-IsBounded arm waiting c q = q

step-IsBounded : (e : Event) (p : Phase) (c : Connection) → IsBounded c → IsBounded (step e p c)
unfolding step
step-IsBounded connected connecting c q = record {
  first = q.first;
  low = omega (arith, q.first);
  high = omega (arith, q.first);
}
step-IsBounded timer waiting c q = record {
  first = q.first;
  low = ground (arith, q.low);
  high = ground (arith, q.high);
}
step-IsBounded (turn results arm) alive c q =
    let f = flush-IsFlushed c.buffer results c in
    select_alive-IsBounded arm (flush c.buffer results c).phase (flush c.buffer results c) (record {
      first = f.first ∙ q.first;
      low = omega (arith, f.delay, q.low);
      high = omega (arith, f.delay, q.high);
    })
step-IsBounded (dropped h) p c q = record { first = q.first; low = q.low; high = q.high }
step-IsBounded refused connecting c q = record { first = q.first; low = q.low; high = q.high }
step-IsBounded (drained m) waiting c q = record { first = q.first; low = q.low; high = q.high }
step-IsBounded connected waiting c q = q
step-IsBounded connected alive c q = q
step-IsBounded refused waiting c q = q
step-IsBounded refused alive c q = q
step-IsBounded timer connecting c q = q
step-IsBounded timer alive c q = q
step-IsBounded (drained m) connecting c q = q
step-IsBounded (drained m) alive c q = q
step-IsBounded (turn results arm) connecting c q = q
step-IsBounded (turn results arm) waiting c q = q

run-IsBounded : (es : List Event) (c : Connection) → IsBounded c → IsBounded (run es c)
unfolding run
run-IsBounded [] c q = q
run-IsBounded (e ∷ es) c q = run-IsBounded es (step e c.phase c) (step-IsBounded e c.phase c q)

-- Whatever the network does, the delay before the next attempt to connect is at least the 200 ms of
-- the start and at most a minute.
pub run-delay : (es : List Event) → (200 ≤ (run es spawn).delay) × ((run es spawn).delay ≤ 60000)
unfolding spawn
run-delay es =
    let q =
      run-IsBounded es spawn (record { first = refl; low = omega arith; high = omega arith }) in
    (q.low, q.high)
