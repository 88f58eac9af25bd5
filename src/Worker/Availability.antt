-- ===== src/Worker/Availability.antt =====
-- What a worker of worker/src/worker.rs reports to its primary.
use sailfish_test.Prelude.{
  ℕ, ◌≤◌, ◌≡◌, refl, sym, subst, inl, inr, List, [], ◌∷◌, ◌++◌, Bool, true, false, arith, ==_refl,
  get_elem?, insert, contains_key, contains_key-insert, All, All-append, All-insert, All-widen,
  get_elem?-append, ==→eq, some, ◌==◌, append_nil, Distinct, Bool-cases, Option-cases, is_empty,
  if◌then◌else◌, length, add64,
}
use mathlib.Core.List.{Memᴰ}
use sailfish_test.Crypto.{Digest, PublicKey, Primitives}
use sailfish_test.Config.{Committee, SocketAddr, WorkerId, stake, quorum_threshold}
use sailfish_test.Config.Stakes.{IsValid, weight}
use sailfish_test.Worker.{
  Bytes, Batch, batch, WorkerPrimaryMessage, our_batch, others_batch, Store, process,
}
use sailfish_test.Worker.BatchMaker
use sailfish_test.Worker.BatchMaker.{BatchMaker}
use sailfish_test.Worker.QuorumWaiter.{wait_for_quorum, wait_for_quorum_iff}
use sailfish_test.Worker.Receivers.{Wire}
use sailfish_test.Worker.Node.{
  Event, from_client, batch_timer, acknowledged, from_worker, process_own, process_others,
  answer_request, Node, spawn, quorum_wait, process_next, step, run,
}

-- The authorities that acknowledge a batch are distinct and others than the worker's own, since there is
-- one handler for each of them.
abbrev pub IsPossible : PublicKey → Event → Type 0
IsPossible name (acknowledged number acks) = Distinct (name ∷ acks)
IsPossible name _ = Unit

if-adds :
    (t : Bool) (m : BatchMaker)
    → (more : List Batch) × ((if t then BatchMaker.seal m else m).sent ≡ m.sent ++ more)
unfolding BatchMaker.seal
if-adds true m = (m.current_batch ∷ [], refl)
if-adds false m = ([], sym (append_nil m.sent))

-- The batch maker only adds to the batches it has sealed.
step-adds :
    (e : BatchMaker.Event) (m : BatchMaker)
    → (more : List Batch) × ((BatchMaker.step e m).sent ≡ m.sent ++ more)
unfolding BatchMaker.step
step-adds (BatchMaker.transaction tx) m = if-adds _ (record m {
  current_batch_size = add64 m.current_batch_size (length tx);
  current_batch = m.current_batch ++ tx ∷ [];
})
step-adds BatchMaker.timer m = elim (Bool-cases (is_empty m.current_batch)) [
  | inl none_left ↦ ([], rw none_left (sym (append_nil m.sent)))
  | inr some_left ↦ rw some_left (if-adds true m)
]

-- The run of a worker over the events of a list.
module _ (p : Primitives) (w : Wire) (c : Committee) (name : PublicKey) (id : WorkerId)
    (events : List Event) where
  -- The sealed batch with a number, serialized: the acknowledgements of this very batch are among the
  -- events, and their authorities have a quorum together with this one.
  pub record IsAcked (sent : List Batch) (bytes : Bytes) : Type 0 where
    pub sealed : Batch
    pub number : ℕ
    pub place : get_elem? sent number ≡ some sealed
    pub serialized : bytes ≡ w.serialize_message (batch sealed)
    pub acks : List PublicKey
    pub arrived : Memᴰ (acknowledged number acks) events
    pub quorum : quorum_threshold c ≤ weight c (name ∷ acks)

  -- A report: the batch is in the store under its digest, and it is acknowledged if it is the
  -- worker's own.
  abbrev pub IsReported : List Batch → Store → WorkerPrimaryMessage → Type 0
  IsReported sent s (our_batch d i) =
      (i ≡ id)
      × (contains_key d s.batches ≡ true)
      × (bytes : Bytes) × IsAcked sent bytes
      × (d ≡ p.sha512 bytes)
  IsReported sent s (others_batch d i) = (i ≡ id) × (contains_key d s.batches ≡ true)

  pub record IsAvailable (n : Node) : Type 0 where
    pub delivered : All (IsAcked n.batch_maker.sent) n.delivered
    pub reported : All (IsReported n.batch_maker.sent n.store) n.reports
    pub addressed : All (λ e. p.sha512 e.1 ≡ e.0) n.store.batches

  IsAcked-grows :
      (sent more : List Batch) (bytes : Bytes) → IsAcked sent bytes → IsAcked (sent ++ more) bytes
  IsAcked-grows sent more bytes q = record {
    sealed = q.sealed;
    number = q.number;
    place = get_elem?-append q.sealed sent more q.number q.place;
    serialized = q.serialized;
    acks = q.acks;
    arrived = q.arrived;
    quorum = q.quorum;
  }

  IsReported-grows :
      (sent more : List Batch) (s : Store) (r : WorkerPrimaryMessage)
      → IsReported sent s r
      → IsReported (sent ++ more) s r
  IsReported-grows sent more s (our_batch d i) (here, there, bytes, acked, hash) =
      (here, there, bytes, IsAcked-grows sent more bytes acked, hash)
  IsReported-grows sent more s (others_batch d i) q = q

  IsReported-stored :
      (sent : List Batch) (s : Store) (k : Digest) (v : Bytes) (r : WorkerPrimaryMessage)
      → IsReported sent s r
      → IsReported sent (record s { batches = insert k v s.batches }) r
  IsReported-stored sent s k v (our_batch d i) (here, there, bytes, acked, hash) =
      (here, rw (contains_key-insert k d v s.batches) (ground (arith, there)), bytes, acked, hash)
  IsReported-stored sent s k v (others_batch d i) (here, there) =
      (here, rw (contains_key-insert k d v s.batches) (ground (arith, there)))

  batch_maker-IsAvailable :
      (m : BatchMaker) (n : Node)
      → ((more : List Batch) × (m.sent ≡ n.batch_maker.sent ++ more))
      → IsAvailable n
      → IsAvailable (record n { batch_maker = m })
  batch_maker-IsAvailable m n (more, e) q = record {
    delivered =
        rw e (All-widen _ _ (IsAcked-grows n.batch_maker.sent more) n.delivered q.delivered);
    reported =
        rw e
          (All-widen _ _ (IsReported-grows n.batch_maker.sent more n.store) n.reports q.reported);
    addressed = q.addressed;
  }

  quorum_wait-IsAvailable :
      (number : ℕ) (acks : List PublicKey) (n : Node)
      → IsValid c
      → Distinct (name ∷ acks)
      → Memᴰ (acknowledged number acks) events
      → IsAvailable n
      → IsAvailable (quorum_wait p w c name id number acks n)
  unfolding quorum_wait
  quorum_wait-IsAvailable number acks n v d m q =
      elim (Option-cases (get_elem? n.batch_maker.sent n.taken)) [
        | inl empty ↦ rw (quorum_wait, empty) q
        | inr (b, next) ↦ elim (Bool-cases (number == n.taken)) [
          | inl this ↦ elim (Bool-cases (wait_for_quorum c (stake c name) acks)) [
            | inl enough ↦
                rw (quorum_wait, next, this, enough)
                  (record {
                    delivered = All-append _ n.delivered _ q.delivered (
                      record {
                        sealed = b;
                        number = number;
                        place = rw (==→eq _ _ this) next;
                        serialized = refl;
                        acks = acks;
                        arrived = m;
                        quorum = ground (arith, wait_for_quorum_iff c name acks v d, enough);
                      },
                      tt,
                    );
                    reported = q.reported;
                    addressed = q.addressed;
                  })
            | inr few ↦
                rw (quorum_wait, next, this, few)
                  (record {
                    delivered = q.delivered;
                    reported = q.reported;
                    addressed = q.addressed;
                  })
          ]
          | inr another ↦ rw (quorum_wait, next, another) q
        ]
      ]

  process_next-IsAvailable :
      (own : Bool) (bytes : Bytes) (n : Node)
      → (own ≡ true → IsAcked n.batch_maker.sent bytes)
      → IsAvailable n
      → IsAvailable (process_next p w c name id own bytes n)
  unfolding process_next process
  process_next-IsAvailable own bytes n acked q =
      let d = p.sha512 bytes in
      let there : contains_key d (insert d bytes n.store.batches) ≡ true =
        rw (contains_key-insert d d bytes n.store.batches, ==_refl d) refl in
      let before =
        All-widen _ _ (IsReported-stored n.batch_maker.sent n.store d bytes) n.reports q.reported in
      record {
        delivered = q.delivered;
        reported = All-append _ n.reports _ before (report own acked there, tt);
        addressed = All-insert _ d bytes n.store.batches refl q.addressed;
      }
    where
      report :
          (own : Bool)
          → (own ≡ true → IsAcked n.batch_maker.sent bytes)
          → contains_key (p.sha512 bytes) (insert (p.sha512 bytes) bytes n.store.batches) ≡ true
          → IsReported n.batch_maker.sent
              (record n.store { batches = insert (p.sha512 bytes) bytes n.store.batches })
              (if own then our_batch (p.sha512 bytes) id else others_batch (p.sha512 bytes) id)
      report true acked there = (refl, there, bytes, acked refl, refl)
      report false acked there = (refl, there)

  own-IsAvailable : (n : Node) → IsAvailable n → IsAvailable (step p w c name id process_own n)
  unfolding step
  own-IsAvailable n q = pop n.delivered refl
    where
      pop :
          (channel : List Bytes)
          → n.delivered ≡ channel
          → IsAvailable (step p w c name id process_own n)
      pop [] e = rw (step, e) q
      pop (bytes ∷ rest) e =
          let acked = subst (All (IsAcked n.batch_maker.sent)) e q.delivered in
          rw (step, e)
            (process_next-IsAvailable true bytes (record n { delivered = rest }) (λ _. acked.0)
              (record { delivered = acked.1; reported = q.reported; addressed = q.addressed }))

  others-IsAvailable :
      (n : Node) → IsAvailable n → IsAvailable (step p w c name id process_others n)
  unfolding step
  others-IsAvailable n q = pop n.channels.tx_processor refl
    where
      pop :
          (channel : List Bytes)
          → n.channels.tx_processor ≡ channel
          → IsAvailable (step p w c name id process_others n)
      pop [] e = rw (step, e) q
      pop (bytes ∷ rest) e =
          rw (step, e)
            (process_next-IsAvailable false bytes _ (λ o. cc)
              (record { delivered = q.delivered; reported = q.reported; addressed = q.addressed }))

  answers-IsAvailable :
      (n : Node) → IsAvailable n → IsAvailable (step p w c name id answer_request n)
  unfolding step
  answers-IsAvailable n q = pop n.channels.tx_helper refl
    where
      pop :
          (channel : List (List Digest × PublicKey))
          → n.channels.tx_helper ≡ channel
          → IsAvailable (step p w c name id answer_request n)
      pop [] e = rw (step, e) q
      pop (request ∷ rest) e =
          rw (step, e)
            (record { delivered = q.delivered; reported = q.reported; addressed = q.addressed })

  step-IsAvailable :
      (e : Event) (n : Node)
      → IsValid c
      → IsPossible name e
      → Memᴰ e events
      → IsAvailable n
      → IsAvailable (step p w c name id e n)
  unfolding step
  step-IsAvailable (from_client message) n v d m q =
      batch_maker-IsAvailable _ n (step-adds (BatchMaker.transaction message) n.batch_maker) q
  step-IsAvailable batch_timer n v d m q =
      batch_maker-IsAvailable _ n (step-adds BatchMaker.timer n.batch_maker) q
  step-IsAvailable (acknowledged number acks) n v d m q =
      quorum_wait-IsAvailable number acks n v d m q
  step-IsAvailable (from_worker message) n v d m q = record {
    delivered = q.delivered;
    reported = q.reported;
    addressed = q.addressed;
  }
  step-IsAvailable process_own n v d m q = own-IsAvailable n q
  step-IsAvailable process_others n v d m q = others-IsAvailable n q
  step-IsAvailable answer_request n v d m q = answers-IsAvailable n q

  all-IsAvailable :
      (es : List Event) (n : Node)
      → IsValid c
      → All (IsPossible name) es
      → ((e : Event) → Memᴰ e es → Memᴰ e events)
      → IsAvailable n
      → IsAvailable (run p w c name id es n)
  unfolding run
  all-IsAvailable [] n v d m q = q
  all-IsAvailable (e ∷ es) n v d m q =
      all-IsAvailable es (step p w c name id e n) v d.1 (λ e' t. m e' (Memᴰ.tail t))
        (step-IsAvailable e n v d.0 (m e (Memᴰ.head refl)) q)

-- On a valid committee, for a worker that starts with an empty database and whose batches are
-- acknowledged by distinct other authorities: however its tasks take turns, and whatever clients and
-- other workers send, every digest that it reports to its primary is in its store. Each that it reports
-- as its own is that of a batch it has sealed, and among the events are acknowledgements of that batch
-- by authorities that hold a quorum together with this one. What the store holds under a digest has
-- that digest.
pub run-IsAvailable :
    (p : Primitives) (w : Wire) (c : Committee) (name : PublicKey) (id : WorkerId) (es : List Event)
    (batch_size : ℕ) (workers_addresses : List (PublicKey × SocketAddr))
    → IsValid c
    → All (IsPossible name) es
    → IsAvailable p w c name id es (
        run p w c name id es
          (spawn batch_size workers_addresses (record { batches = []; broken = false })))
unfolding spawn
run-IsAvailable p w c name id es batch_size workers_addresses v d =
    all-IsAvailable p w c name id es es _ v d (λ e m. m)
      (record { delivered = tt; reported = tt; addressed = tt })
