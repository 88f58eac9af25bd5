-- ===== src/ReliableSender/Order.antt =====
-- The order of the messages in network/src/reliable_sender.rs.
use sailfish_test.Prelude.{
  ◌≡◌, refl, ◌∙◌, sym, ap, subst, List, [], ◌∷◌, ◌++◌, append_assoc, append_nil, map, Bool, Option,
  none, some, retain, retain-append,
}
use sailfish_test.ReliableSender.{
  InnerMessage, Connection, Phase, connecting, waiting, alive, Event, connected, refused, timer,
  drained, turn, dropped, Arm, receive, respond, Handler, Bytes, spawn, is_open, disconnect, flush,
  answer, select, select_alive, step, run,
}
use sailfish_test.ReliableSender.Flush.{Alike-append, Alike-retain, Alike-more, flush-IsFlushed}

-- The messages that a connection takes from its channel.
abbrev takes_alive : Arm → Phase → List InnerMessage
takes_alive (receive m) alive = m ∷ []
takes_alive _ _ = []

abbrev pub takes : Event → Phase → Connection → List InnerMessage
takes (drained m) waiting c = m ∷ []
takes (turn results arm) alive c = takes_alive arm (flush c.buffer results c).phase
takes _ _ c = []

abbrev pub taken : List Event → Connection → List InnerMessage
taken [] c = []
taken (e ∷ es) c = takes e c.phase c ++ taken es (step e c.phase c)

-- The messages that were acknowledged, those that wait for an answer, and those of a buffer.
abbrev line : List InnerMessage → Connection → List InnerMessage
line buffer c = map (λ a. a.0) c.acked ++ (c.pending_replies ++ buffer)

-- Without those that were cancelled, the messages taken are the acknowledged ones, then those that wait
-- for an answer, then those in the buffer, each once and in the order in which they were taken.
pub record IsInLine (given : List InnerMessage) (c : Connection) : Type 0 where
  pub in_order :
      retain (is_open c.closed) (map (λ a. a.0) c.acked ++ (c.pending_replies ++ c.buffer))
      ≡ retain (is_open c.closed) given

flush-IsInLine :
    (given : List InnerMessage) (results : List Bool) (c : Connection)
    → IsInLine given c
    → IsInLine given (flush c.buffer results c)
flush-IsInLine given results c q =
    let r = flush c.buffer results c in
    let f = flush-IsFlushed c.buffer results c in
    record {
      in_order =
          rw (f.closed, f.acked)
            (Alike-append c.closed (map (λ a. a.0) c.acked) (r.pending_replies ++ r.buffer)
                (c.pending_replies ++ c.buffer) f.alike
              ∙ q.in_order);
    }

firsts-snoc :
    (as_ : List (InnerMessage × Bytes)) (m : InnerMessage) (bytes : Bytes)
    → map (λ a. a.0) (as_ ++ (m, bytes) ∷ []) ≡ map (λ a. a.0) as_ ++ m ∷ []
firsts-snoc [] m bytes = refl
firsts-snoc (a ∷ as_) m bytes = ap (λ l. a.0 ∷ l) (firsts-snoc as_ m bytes)

answer-IsInLine :
    (given pending : List InnerMessage) (response : Option Bytes) (c : Connection)
    → c.pending_replies ≡ pending
    → IsInLine given c
    → IsInLine given (answer response pending c)
unfolding answer disconnect
answer-IsInLine given [] response c e q = record { in_order = q.in_order }
answer-IsInLine given (m ∷ pending) none c e q = record { in_order = q.in_order }
answer-IsInLine given (m ∷ pending) (some bytes) c e q = record {
  in_order =
      let keep = retain (is_open c.closed) in
      let acks = map (λ (a : InnerMessage × Bytes). a.0) c.acked in
      ap (λ l. keep (l ++ (pending ++ c.buffer))) (firsts-snoc c.acked m bytes)
      ∙ ap keep (append_assoc acks (m ∷ []) (pending ++ c.buffer))
      ∙ subst (λ ps. keep (acks ++ (ps ++ c.buffer)) ≡ keep given) e q.in_order;
}

receive-IsInLine :
    (given : List InnerMessage) (m : InnerMessage) (c : Connection)
    → IsInLine given c
    → IsInLine (given ++ m ∷ []) (record c { buffer = c.buffer ++ m ∷ [] })
receive-IsInLine given m c q = record {
  in_order =
      let keep = retain (is_open c.closed) in
      let acks = map (λ (a : InnerMessage × Bytes). a.0) c.acked in
      ap keep (
        ap (λ l. acks ++ l) (sym (append_assoc c.pending_replies c.buffer (m ∷ [])))
        ∙ sym (append_assoc acks (c.pending_replies ++ c.buffer) (m ∷ [])))
      ∙ retain-append (is_open c.closed) (acks ++ (c.pending_replies ++ c.buffer)) (m ∷ [])
      ∙ ap (λ l. l ++ keep (m ∷ [])) q.in_order
      ∙ sym (retain-append (is_open c.closed) given (m ∷ []));
}

-- The buffer of a connection that waits is rid of what was cancelled.
drain-IsInLine :
    (given : List InnerMessage) (c : Connection)
    → IsInLine given c
    → IsInLine given (record c { buffer = retain (is_open c.closed) c.buffer })
drain-IsInLine given c q = record {
  in_order =
      Alike-append c.closed (map (λ a. a.0) c.acked) _ _ (
        Alike-append c.closed c.pending_replies (retain (is_open c.closed) c.buffer) c.buffer
          (Alike-retain c.closed c.buffer))
      ∙ q.in_order;
}

drop-IsInLine :
    (given : List InnerMessage) (h : Handler) (c : Connection)
    → IsInLine given c
    → IsInLine given (record c { closed = h ∷ c.closed })
drop-IsInLine given h c q = record {
  in_order =
      sym (Alike-more h c.closed _)
      ∙ ap (retain (is_open (h ∷ c.closed))) q.in_order
      ∙ Alike-more h c.closed given;
}

select_alive-IsInLine :
    (given : List InnerMessage) (arm : Arm) (p : Phase) (c : Connection)
    → IsInLine given c
    → IsInLine (given ++ takes_alive arm p) (select_alive arm p c)
unfolding select_alive select
select_alive-IsInLine given (receive m) alive c q = receive-IsInLine given m c q
select_alive-IsInLine given (respond response) alive c q =
    subst (λ g. IsInLine g (answer response c.pending_replies c)) (sym (append_nil given))
      (answer-IsInLine given c.pending_replies response c refl q)
select_alive-IsInLine given (receive m) connecting c q =
    subst (λ g. IsInLine g c) (sym (append_nil given)) q
select_alive-IsInLine given (respond r) connecting c q =
    subst (λ g. IsInLine g c) (sym (append_nil given)) q
select_alive-IsInLine given (receive m) waiting c q =
    subst (λ g. IsInLine g c) (sym (append_nil given)) q
select_alive-IsInLine given (respond r) waiting c q =
    subst (λ g. IsInLine g c) (sym (append_nil given)) q

same-IsInLine :
    (given : List InnerMessage) (c c' : Connection)
    → c'.closed ≡ c.closed
    → c'.acked ≡ c.acked
    → c'.pending_replies ≡ c.pending_replies
    → c'.buffer ≡ c.buffer
    → IsInLine given c
    → IsInLine (given ++ []) c'
same-IsInLine given c c' a b d e q = record {
  in_order = rw (a, b, d, e) (q.in_order ∙ ap (retain (is_open c.closed)) (sym (append_nil given)));
}

step-IsInLine :
    (given : List InnerMessage) (e : Event) (p : Phase) (c : Connection)
    → IsInLine given c
    → IsInLine (given ++ takes e p c) (step e p c)
unfolding step
step-IsInLine given (drained m) waiting c q =
    drain-IsInLine (given ++ m ∷ []) (record c { buffer = c.buffer ++ m ∷ [] })
      (receive-IsInLine given m c q)
step-IsInLine given (turn results arm) alive c q =
    select_alive-IsInLine given arm (flush c.buffer results c).phase (flush c.buffer results c)
      (flush-IsInLine given results c q)
step-IsInLine given (dropped h) p c q =
    subst (λ g. IsInLine g (record c { closed = h ∷ c.closed })) (sym (append_nil given))
      (drop-IsInLine given h c q)
step-IsInLine given connected connecting c q =
    same-IsInLine given c (step connected connecting c) refl refl refl refl q
step-IsInLine given connected waiting c q =
    same-IsInLine given c (step connected waiting c) refl refl refl refl q
step-IsInLine given connected alive c q =
    same-IsInLine given c (step connected alive c) refl refl refl refl q
step-IsInLine given refused connecting c q =
    same-IsInLine given c (step refused connecting c) refl refl refl refl q
step-IsInLine given refused waiting c q =
    same-IsInLine given c (step refused waiting c) refl refl refl refl q
step-IsInLine given refused alive c q =
    same-IsInLine given c (step refused alive c) refl refl refl refl q
step-IsInLine given timer connecting c q =
    same-IsInLine given c (step timer connecting c) refl refl refl refl q
step-IsInLine given timer waiting c q =
    same-IsInLine given c (step timer waiting c) refl refl refl refl q
step-IsInLine given timer alive c q =
    same-IsInLine given c (step timer alive c) refl refl refl refl q
step-IsInLine given (drained m) connecting c q =
    same-IsInLine given c (step (drained m) connecting c) refl refl refl refl q
step-IsInLine given (drained m) alive c q =
    same-IsInLine given c (step (drained m) alive c) refl refl refl refl q
step-IsInLine given (turn results arm) connecting c q =
    same-IsInLine given c (step (turn results arm) connecting c) refl refl refl refl q
step-IsInLine given (turn results arm) waiting c q =
    same-IsInLine given c (step (turn results arm) waiting c) refl refl refl refl q

run-IsInLine' :
    (es : List Event) (given : List InnerMessage) (c : Connection)
    → IsInLine given c
    → IsInLine (given ++ taken es c) (run es c)
unfolding run
run-IsInLine' [] given c q = subst (λ g. IsInLine g c) (sym (append_nil given)) q
run-IsInLine' (e ∷ es) given c q =
    subst (λ g. IsInLine g (run es (step e c.phase c)))
      (append_assoc given (takes e c.phase c) (taken es (step e c.phase c)))
      (run-IsInLine' es (given ++ takes e c.phase c) (step e c.phase c)
        (step-IsInLine given e c.phase c q))

-- Whatever the network does, a connection is a queue that loses nothing, repeats nothing and keeps the
-- order: apart from those that were cancelled, the messages that it has taken from its channel are
-- those that were acknowledged, then those that wait for an answer, then those in its buffer.
pub run-IsInLine : (es : List Event) → IsInLine (taken es spawn) (run es spawn)
unfolding spawn
run-IsInLine es = run-IsInLine' es [] spawn (record { in_order = refl })
