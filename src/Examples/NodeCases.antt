-- ===== src/Examples/NodeCases.antt =====
-- A worker and its primary, from the network to the store of the primary, and a simple sender.
use sailfish_test.Prelude.{
  true, get, zero, suc, ◌≡◌, refl, List, [], ◌∷◌, ◌++◌, map, false, not, ◌||◌, Option, none, some,
  retain,
}
use sailfish_test.Crypto.{Digest}
use sailfish_test.Config.{WorkerId}
use sailfish_test.Messages.{ok}
use sailfish_test.Core.Sync.{missing_batches, has_batch}
use sailfish_test.Worker
use sailfish_test.Worker.{
  Bytes, Transaction, Batch, WorkerMessage, batch, batch_request, WorkerPrimaryMessage, our_batch,
  others_batch,
}
use sailfish_test.Worker.Receivers.{Wire}
use sailfish_test.Worker.Node.{
  Event, from_client, batch_timer, acknowledged, from_worker, process_own, process_others, spawn,
  run,
}
use sailfish_test.Worker.Availability.{IsAvailable, run-IsAvailable}
use sailfish_test.Tasks.Arrival.{IsFaithful, arrive, has_arrived, arrive-missing_batches}
use mathlib.Core.List.{Sublist}
use sailfish_test.SimpleSender
use sailfish_test.SimpleSender.{new_sender}
use sailfish_test.SimpleSender.BestEffort.{messages_to, queue_of, given, run-Sublist}
use sailfish_test.Examples.Fixtures.{committee, primitives}
use sailfish_test.Examples.ConfigCases.{committee-IsValid}
use sailfish_test.Examples.CoreCases.{empty_store}

-- A batch is a 0, and then each transaction with its bytes raised by one, ended by a 0.
abbrev encode : Batch → Bytes
encode [] = []
encode (tx ∷ txs) = map suc tx ++ 0 ∷ encode txs

abbrev decode : Bytes → Transaction → Batch
decode [] tx = []
decode (zero ∷ bytes) tx = tx ∷ decode bytes []
decode (suc n ∷ bytes) tx = decode bytes (tx ++ n ∷ [])

abbrev write_message : WorkerMessage → Bytes
write_message (batch b) = 0 ∷ encode b
write_message (batch_request ds requestor) = 1 ∷ requestor ∷ ds

abbrev read_message : Bytes → Option WorkerMessage
read_message (zero ∷ bytes) = some (batch (decode bytes []))
read_message (suc zero ∷ requestor ∷ ds) = some (batch_request ds requestor)
read_message _ = none

abbrev write_report : WorkerPrimaryMessage → Bytes
write_report (our_batch d i) = 0 ∷ d ∷ i ∷ []
write_report (others_batch d i) = 1 ∷ d ∷ i ∷ []

abbrev read_report : Bytes → Option WorkerPrimaryMessage
read_report (zero ∷ d ∷ i ∷ []) = some (our_batch d i)
read_report (suc zero ∷ d ∷ i ∷ []) = some (others_batch d i)
read_report _ = none

abbrev wire : Wire
wire = record {
  serialize_message = write_message;
  deserialize_message = read_message;
  serialize_report = write_report;
  deserialize_report = read_report;
  deserialize_command = λ bytes. none;
}

wire-IsFaithful : IsFaithful primitives wire 0
wire-IsFaithful (our_batch d i) = refl
wire-IsFaithful (others_batch d i) = refl

abbrev events : List Event
events =
    from_client (1 ∷ 2 ∷ [])
    ∷ from_worker (0 ∷ 8 ∷ 0 ∷ [])
    ∷ batch_timer
    ∷ acknowledged 0 (2 ∷ 4 ∷ [])
    ∷ process_others
    ∷ process_own
    ∷ []

run-IsAvailable_example : IsAvailable primitives wire committee 1 0 events (
    run primitives wire committee 1 0 events
      (spawn 100 [] (record { batches = []; broken = false })))
run-IsAvailable_example =
    run-IsAvailable primitives wire committee 1 0 events 100 [] committee-IsValid
      (tt, (tt, (tt, ((refl, (refl, (refl, tt))), (tt, (tt, tt))))))

-- A batch, a request and bytes that cannot be read.
abbrev messages : List Bytes
messages = (0 ∷ 8 ∷ 0 ∷ []) ∷ (1 ∷ 3 ∷ 60 ∷ []) ∷ (7 ∷ []) ∷ []

abbrev payload : List (Digest × WorkerId)
payload = (primitives.sha512 (0 ∷ 8 ∷ 0 ∷ []), 0) ∷ (60, 0) ∷ []

abbrev bare : Worker.Store
bare = record { batches = []; broken = false }

arrive-missing_batches_example :
    missing_batches (arrive primitives wire 0 messages bare empty_store) payload
    ≡ ok (
        retain
          (λ e. not (has_arrived primitives wire 0 messages e || has_batch empty_store e))
          payload)
arrive-missing_batches_example =
    arrive-missing_batches primitives wire 0 wire-IsFaithful messages bare empty_store payload refl

-- Two messages, a refused connection in between, and a third message on a new connection.
abbrev sending : List SimpleSender.Event
sending =
    SimpleSender.sends true 9 (1 ∷ [])
    ∷ SimpleSender.acts 9 SimpleSender.connected
    ∷ SimpleSender.acts 9 (SimpleSender.takes true)
    ∷ SimpleSender.sends true 9 (2 ∷ [])
    ∷ SimpleSender.acts 9 (SimpleSender.replies false)
    ∷ SimpleSender.sends true 9 (3 ∷ [])
    ∷ []

run-Sublist_example :
    Sublist
      (messages_to 9 (SimpleSender.run sending new_sender).written
        ++ queue_of (get 9 (SimpleSender.run sending new_sender).connections))
      (messages_to 9 (given sending))
run-Sublist_example = run-Sublist 9 sending
