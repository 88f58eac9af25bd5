-- ===== src/Worker/Node.antt =====
-- worker/src/worker.rs: the tasks of a worker with the channels between them. The tasks of a worker
-- take turns in any order, each takes the oldest message of its channel, and an empty channel leaves
-- all as it is.
use sailfish_test.Prelude.{
  ℕ, ◌+◌, List, [], ◌∷◌, ◌++◌, Bool, true, false, none, some, get_elem?, if◌then◌else◌, ◌==◌,
}
use sailfish_test.Crypto.{PublicKey, Primitives}
use sailfish_test.Config.{Committee, SocketAddr, WorkerId, stake}
use sailfish_test.Worker.{Bytes, batch, WorkerPrimaryMessage, Store, process, help}
use sailfish_test.Worker.BatchMaker
use sailfish_test.Worker.BatchMaker.{BatchMaker, transaction, timer}
use sailfish_test.Worker.QuorumWaiter.{wait_for_quorum}
use sailfish_test.Worker.Receivers.{Wire, Channels, no_messages, dispatch_worker}

-- What can happen next: a transaction of a client, the timer of the batch maker, the acknowledgements
-- of the sealed batch with the given number (the first is 0) in their order, a message of another worker, and a turn of the processor of
-- own batches, of the processor of others' batches, and of the helper.
pub data Event : Type 0 where
  from_client : Bytes → Event
  batch_timer : Event
  acknowledged : ℕ → List PublicKey → Event
  from_worker : Bytes → Event
  process_own : Event
  process_others : Event
  answer_request : Event

pub record Node : Type 0 where
  pub batch_maker : BatchMaker
  -- The number of sealed batches that the quorum waiter has taken.
  pub taken : ℕ
  -- The channel from the quorum waiter to the processor.
  pub delivered : List Bytes
  pub channels : Channels
  pub store : Store
  -- The messages for the primary and the batches sent to other workers so far, the oldest first.
  pub reports : List WorkerPrimaryMessage
  pub replies : List (SocketAddr × Bytes)

-- `Worker::spawn`.
unfoldable pub spawn : ℕ → List (PublicKey × SocketAddr) → Store → Node
spawn batch_size workers_addresses store = record {
  batch_maker = BatchMaker.spawn batch_size workers_addresses;
  taken = 0;
  delivered = [];
  channels = no_messages;
  store = store;
  reports = [];
  replies = [];
}

module _ (p : Primitives) (w : Wire) (c : Committee) (name : PublicKey) (id : WorkerId) where
  -- The quorum waiter takes the sealed batches in their order, each as it is broadcast, and waits for
  -- the acknowledgements of the one it has taken.
  unfoldable pub quorum_wait : ℕ → List PublicKey → Node → Node
  quorum_wait number acks n = elim (get_elem? n.batch_maker.sent n.taken) [
    | none ↦ n
    | some b ↦
        let n' : Node = record n { taken = n.taken + 1 } in
        if number == n.taken
        then (if wait_for_quorum c (stake c name) acks
            then record n' { delivered = n'.delivered ++ w.serialize_message (batch b) ∷ [] }
            else n')
        else n
  ]

  unfoldable pub process_next : Bool → Bytes → Node → Node
  process_next own_digest serialized n =
      let (store, report) = process p id own_digest serialized n.store in
      record n { store = store; reports = n.reports ++ report ∷ [] }

  unfoldable pub step : Event → Node → Node
  unfolding quorum_wait process_next
  step (from_client message) n = record n {
    batch_maker = BatchMaker.step (transaction message) n.batch_maker;
  }
  step batch_timer n = record n { batch_maker = BatchMaker.step timer n.batch_maker }
  step (acknowledged number acks) n = quorum_wait number acks n
  step (from_worker message) n = record n { channels = (dispatch_worker w message n.channels).1 }
  step process_own n = elim n.delivered [
    | [] ↦ n
    | ◌∷◌ serialized rest ↦ process_next true serialized (record n { delivered = rest })
  ]
  step process_others n = elim n.channels.tx_processor [
    | [] ↦ n
    | ◌∷◌ serialized rest ↦
        process_next false serialized
          (record n { channels = record n.channels { tx_processor = rest } })
  ]
  step answer_request n = elim n.channels.tx_helper [
    | [] ↦ n
    | ◌∷◌ request rest ↦ record n {
      channels = record n.channels { tx_helper = rest };
      replies = n.replies ++ help id c n.store request.0 request.1;
    }
  ]

  unfoldable pub run : List Event → Node → Node
  unfolding step
  run [] n = n
  run (e ∷ es) n = run es (step e n)
