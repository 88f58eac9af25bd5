-- ===== src/SimpleSender/BestEffort.antt =====
-- What network/src/simple_sender.rs writes of what it is given.
use sailfish_test.Prelude.{
  ◌≡◌, refl, ◌∙◌, sym, ap, subst, inl, inr, List, [], ◌∷◌, ◌++◌, map, Bool, true, false, Option,
  none, some, arith, ◌==◌, if◌then◌else◌, get, insert, get-insert, append_assoc, append_nil,
  Bool-cases, ==→eq, ==_refl,
}
use mathlib.Core.List.{Sublist}
use mathlib.Core.List.Sublist
use sailfish_test.Config.{SocketAddr}
use sailfish_test.SimpleSender.{
  Bytes, Phase, connecting, alive, ended, Connection, Happening, connected, refused, takes, replies,
  advance, SimpleSender, new_sender, open_connection, has_ended, send_on, send, Event, sends, acts,
  act_on, step, run,
}

-- The messages for an address.
abbrev pub messages_to : SocketAddr → List (SocketAddr × Bytes) → List Bytes
messages_to a [] = []
messages_to a ((b, m) ∷ ms) = let rest = messages_to a ms in if b == a then m ∷ rest else rest

-- What callers give the sender.
abbrev pub given : List Event → List (SocketAddr × Bytes)
given [] = []
given (sends started a m ∷ es) = (a, m) ∷ given es
given (acts a h ∷ es) = given es

abbrev pub queue_of : Option Connection → List Bytes
queue_of none = []
queue_of (some c) = c.receiver

-- What an address has got and what waits for it.
abbrev pub line : SocketAddr → SimpleSender → List Bytes
line a s = messages_to a s.written ++ queue_of (get a s.connections)

messages_to-append :
    (a : SocketAddr) (xs ys : List (SocketAddr × Bytes))
    → messages_to a (xs ++ ys) ≡ messages_to a xs ++ messages_to a ys
messages_to-append a [] ys = refl
messages_to-append a ((b, m) ∷ xs) ys = ground (arith, messages_to-append a xs ys)

Sublist-nil : (l : List Bytes) → Sublist [] l
Sublist-nil [] = Sublist.refl _
Sublist-nil (m ∷ l) = Sublist.cons m (Sublist-nil l)

Sublist-left : (xs ys : List Bytes) → Sublist (xs ++ []) (xs ++ ys)
Sublist-left xs ys = Sublist.append (Sublist.refl xs) (Sublist-nil ys)

map-own : (a : SocketAddr) (out : List Bytes) → messages_to a (map (λ m. (a, m)) out) ≡ out
map-own a [] = refl
map-own a (m ∷ out) = rw (==_refl a) (ap (λ l. m ∷ l) (map-own a out))

map-other :
    (a b : SocketAddr) (out : List Bytes)
    → (b == a) ≡ false
    → messages_to a (map (λ m. (b, m)) out) ≡ []
map-other a b [] h = refl
map-other a b (m ∷ out) h = rw h (map-other a b out h)

-- A step of a connection writes from the front of its channel and may lose messages.
advance-Sublist :
    (h : Happening) (phase : Phase) (queue : List Bytes)
    → Sublist ((advance h phase queue).1 ++ (advance h phase queue).0.receiver) queue
unfolding advance
advance-Sublist connected connecting queue = Sublist.refl _
advance-Sublist connected alive queue = Sublist.refl _
advance-Sublist connected ended queue = Sublist.refl _
advance-Sublist refused connecting queue = Sublist-nil queue
advance-Sublist refused alive queue = Sublist.refl _
advance-Sublist refused ended queue = Sublist.refl _
advance-Sublist (takes true) alive (m ∷ queue) = Sublist.refl _
advance-Sublist (takes false) alive (m ∷ queue) = Sublist-nil (m ∷ queue)
advance-Sublist (takes true) alive [] = Sublist.refl _
advance-Sublist (takes false) alive [] = Sublist.refl _
advance-Sublist (takes true) connecting queue = Sublist.refl _
advance-Sublist (takes false) connecting queue = Sublist.refl _
advance-Sublist (takes true) ended queue = Sublist.refl _
advance-Sublist (takes false) ended queue = Sublist.refl _
advance-Sublist (replies false) alive queue = Sublist-nil queue
advance-Sublist (replies true) alive queue = Sublist.refl _
advance-Sublist (replies true) connecting queue = Sublist.refl _
advance-Sublist (replies false) connecting queue = Sublist.refl _
advance-Sublist (replies true) ended queue = Sublist.refl _
advance-Sublist (replies false) ended queue = Sublist.refl _

Sublist-first : (xs ys : List Bytes) → Sublist xs (xs ++ ys)
Sublist-first xs ys = subst (λ l. Sublist l (xs ++ ys)) (append_nil xs) (Sublist-left xs ys)

get-own :
    (a : SocketAddr) (c : Connection) (s : SimpleSender) → get a (insert a c s.connections) ≡ some c
get-own a c s = get-insert a a c s.connections ∙ rw (==_refl a) refl

get-other :
    (a b : SocketAddr) (c : Connection) (s : SimpleSender)
    → (b == a) ≡ false
    → get a (insert b c s.connections) ≡ get a s.connections
get-other a b c s h = get-insert b a c s.connections ∙ rw h refl

open-own :
    (started : Bool) (a : SocketAddr) (m : Bytes) (s : SimpleSender)
    → Sublist (line a (open_connection started a m s)) (line a s ++ m ∷ [])
unfolding open_connection
open-own true a m s =
    rw (get-own a (record { phase = connecting; receiver = m ∷ [] }) s)
      (Sublist.append (Sublist-first (messages_to a s.written) _) (Sublist.refl (m ∷ [])))
open-own false a m s = Sublist-first (line a s) (m ∷ [])

open-other :
    (started : Bool) (a b : SocketAddr) (m : Bytes) (s : SimpleSender)
    → (b == a) ≡ false
    → line a (open_connection started b m s) ≡ line a s
unfolding open_connection
open-other true a b m s h = ap (λ o. messages_to a s.written ++ queue_of o) (get-other a b _ s h)
open-other false a b m s h = refl

send_on-own :
    (started : Bool) (a : SocketAddr) (m : Bytes) (o : Option Connection) (s : SimpleSender)
    → get a s.connections ≡ o
    → Sublist (line a (send_on started a m o s)) (line a s ++ m ∷ [])
unfolding send_on
send_on-own started a m none s e = open-own started a m s
send_on-own started a m (some c) s e = elim (Bool-cases (has_ended c.phase)) [
  | inl over ↦ rw (send_on, over) (open-own started a m s)
  | inr going ↦
      rw (send_on, going, get-own a (record c { receiver = c.receiver ++ m ∷ [] }) s, e)
        (subst (λ l. Sublist l ((messages_to a s.written ++ c.receiver) ++ m ∷ []))
          (append_assoc (messages_to a s.written) c.receiver (m ∷ [])) (Sublist.refl _))
]

send_on-other :
    (started : Bool) (a b : SocketAddr) (m : Bytes) (o : Option Connection) (s : SimpleSender)
    → (b == a) ≡ false
    → line a (send_on started b m o s) ≡ line a s
unfolding send_on
send_on-other started a b m none s h = open-other started a b m s h
send_on-other started a b m (some c) s h = elim (Bool-cases (has_ended c.phase)) [
  | inl over ↦ rw (send_on, over) (open-other started a b m s h)
  | inr going ↦
      rw (send_on, going) (ap (λ o. messages_to a s.written ++ queue_of o) (get-other a b _ s h))
]

act_on-own :
    (a : SocketAddr) (h : Happening) (o : Option Connection) (s : SimpleSender)
    → get a s.connections ≡ o
    → Sublist (line a (act_on a h o s)) (line a s)
unfolding act_on
act_on-own a h none s e = Sublist.refl _
act_on-own a h (some c) s e =
    let out = (advance h c.phase c.receiver).1 in
    let c' = (advance h c.phase c.receiver).0 in
    let there =
      messages_to-append a s.written (map (λ m. (a, m)) out)
      ∙ ap (λ l. messages_to a s.written ++ l) (map-own a out) in
    rw (get-own a c' s, there, e)
      (subst (λ l. Sublist l (messages_to a s.written ++ c.receiver))
        (sym (append_assoc (messages_to a s.written) out c'.receiver))
        (Sublist.append (Sublist.refl (messages_to a s.written))
          (advance-Sublist h c.phase c.receiver)))

act_on-other :
    (a b : SocketAddr) (h : Happening) (o : Option Connection) (s : SimpleSender)
    → (b == a) ≡ false
    → line a (act_on b h o s) ≡ line a s
unfolding act_on
act_on-other a b h none s d = refl
act_on-other a b h (some c) s d =
    let out = (advance h c.phase c.receiver).1 in
    let there =
      messages_to-append a s.written (map (λ m. (b, m)) out)
      ∙ ap (λ l. messages_to a s.written ++ l) (map-other a b out d)
      ∙ append_nil _ in
    rw (get-other a b (advance h c.phase c.receiver).0 s d, there) refl

step-Sublist :
    (a : SocketAddr) (e : Event) (s : SimpleSender)
    → Sublist (line a (step e s)) (line a s ++ messages_to a (given (e ∷ [])))
unfolding step send
step-Sublist a (sends started b m) s = elim (Bool-cases (b == a)) [
  | inl same ↦
      subst
        (λ x.
          Sublist (line x (send_on started b m (get b s.connections) s))
            (line x s ++ messages_to x ((b, m) ∷ [])))
        (==→eq b a same) (rw (==_refl b) (send_on-own started b m (get b s.connections) s refl))
  | inr other ↦
      rw (send_on-other started a b m (get b s.connections) s other)
        (Sublist-first (line a s) (messages_to a ((b, m) ∷ [])))
]
step-Sublist a (acts b h) s = rw (append_nil (line a s)) (elim (Bool-cases (b == a)) [
  | inl same ↦
      subst (λ x. Sublist (line x (act_on b h (get b s.connections) s)) (line x s)) (==→eq b a same)
        (act_on-own b h (get b s.connections) s refl)
  | inr other ↦ rw (act_on-other a b h (get b s.connections) s other) (Sublist.refl _)
])

given-cons :
    (a : SocketAddr) (e : Event) (es : List Event)
    → messages_to a (given (e ∷ es)) ≡ messages_to a (given (e ∷ [])) ++ messages_to a (given es)
given-cons a (sends started b m) es = messages_to-append a ((b, m) ∷ []) (given es)
given-cons a (acts b h) es = refl

run-Sublist_from :
    (a : SocketAddr) (es : List Event) (s : SimpleSender)
    → Sublist (line a (run es s)) (line a s ++ messages_to a (given es))
unfolding run
run-Sublist_from a [] s = Sublist-first (line a s) []
run-Sublist_from a (e ∷ es) s = Sublist.trans (run-Sublist_from a es (step e s)) (
    subst (λ l. Sublist (line a (step e s) ++ messages_to a (given es)) l)
      (append_assoc (line a s) _ _ ∙ ap (λ l. line a s ++ l) (sym (given-cons a e es)))
      (Sublist.append (step-Sublist a e s) (Sublist.refl (messages_to a (given es)))))

-- Whatever connections fail and are made again: what the sender has written to an address, and then what
-- waits in the channel of the connection, are messages that were given to it for the address, each at
-- most once and in the order in which they were given.
pub run-Sublist :
    (a : SocketAddr) (es : List Event)
    → Sublist
        (messages_to a (run es new_sender).written
          ++ queue_of (get a (run es new_sender).connections))
        (messages_to a (given es))
unfolding new_sender
run-Sublist a es = run-Sublist_from a es new_sender
