-- ===== src/CertificateWaiter.antt =====
-- primary/src/certificate_waiter.rs: the certificates that wait for their parents, over the store of
-- `Storage`. The key of a certificate is its digest. Each `notify_read` has a channel of its own: the
-- channels are numbered.
pub mod Delivery
use sailfish_test.Prelude.{
  ℕ, zero, suc, ◌+◌, List, [], ◌∷◌, ◌++◌, Option, none, some, get_elem?, length,
}
use sailfish_test.Crypto.{Digest}
use sailfish_test.Messages.{Certificate}
use sailfish_test.Storage.{
  Database, Sender, Answer, to_read, to_notify_read, StoreResult, StoreCommand, notify_read, Store,
  step, run,
}
use sailfish_test.Storage.Resolves.{answers_to}

-- `CertificateWaiter::waiter`: what it waits for, by channel, and what it delivers.
pub record Waiter : Type 0 where
  pub missing : List Sender
  pub deliver : Certificate

-- What `try_join_all` says.
pub data Joined : Type 0 where
  waits failed complete : Joined

-- The answers on one channel, and then those on the others.
abbrev join_answer : List Answer → Joined → Joined
join_answer [] failed = failed
join_answer [] _ = waits
join_answer (to_notify_read StoreResult.err ∷ rest) j = failed
join_answer (_ ∷ rest) j = j

unfoldable pub try_join_all : List Sender → List (Sender × Answer) → Joined
try_join_all [] answers = complete
try_join_all (s ∷ ss) answers = join_answer (answers_to s answers) (try_join_all ss answers)

-- The channels from a number on, one for each parent.
unfoldable pub channels : List Digest → Sender → List Sender
channels [] n = []
channels (d ∷ ds) n = n ∷ channels ds (n + 1)

-- A `notify_read` for each parent.
unfoldable pub ask : List Digest → Sender → List StoreCommand
ask [] n = []
ask (d ∷ ds) n = notify_read d n ∷ ask ds (n + 1)

module _ (D : Database) where
  pub record CertificateWaiter : Type 0 where
    pub store : Store D
    pub next_channel : Sender
    pub waiting : List Waiter
    -- The certificates sent to the core so far, the oldest first.
    pub sent : List Certificate

  -- A certificate comes from the synchronizer.
  unfoldable pub receive : Certificate → CertificateWaiter → CertificateWaiter
  unfolding ask channels
  receive x w =
      let parents = x.header.parents in
      record w {
        store = run D (ask parents w.next_channel) w.store;
        next_channel = w.next_channel + length parents;
        waiting =
            w.waiting ++ record { missing = channels parents w.next_channel; deliver = x } ∷ [];
      }

  -- Another task uses the store.
  unfoldable pub other : StoreCommand → CertificateWaiter → CertificateWaiter
  other c w = record w { store = step D c w.store }

  unfoldable pub take_waiter : ℕ → List Waiter → List Waiter
  take_waiter i [] = []
  take_waiter zero (w ∷ ws) = ws
  take_waiter (suc i) (w ∷ ws) = w ∷ take_waiter i ws

  -- The pool is asked for the waiter at a place: a complete one goes to the core, one whose read has
  -- failed kills the node (`none`), and one that waits stays.
  unfoldable pub next : ℕ → CertificateWaiter → Option CertificateWaiter
  unfolding take_waiter
  next i w = elim (get_elem? w.waiting i) [
    | none ↦ some w
    | some x ↦ elim (try_join_all x.missing w.store.answers) [
      | waits ↦ some w
      | failed ↦ none
      | complete ↦
          some (record w { waiting = take_waiter i w.waiting; sent = w.sent ++ x.deliver ∷ [] })
    ]
  ]

  unfoldable pub others : List StoreCommand → CertificateWaiter → CertificateWaiter
  unfolding other
  others [] w = w
  others (c ∷ cs) w = others cs (other c w)
