-- ===== src/Worker/Receivers.antt =====
-- worker/src/worker.rs: the handlers of the messages that a worker receives from the network.
use sailfish_test.Prelude.{suc, ℕ, List, [], ◌∷◌, ◌++◌, Option, none, some}
use sailfish_test.Crypto.{Digest, PublicKey}
use sailfish_test.Receiver.{Dispatched, handled}
use sailfish_test.Worker.{
  Bytes, Transaction, WorkerMessage, batch, batch_request, WorkerPrimaryMessage,
  PrimaryWorkerMessage,
}

-- The serialisation by the crate bincode, which is third-party code.
pub record Wire : Type 0 where
  pub serialize_message : WorkerMessage → Bytes
  pub deserialize_message : Bytes → Option WorkerMessage
  pub serialize_report : WorkerPrimaryMessage → Bytes
  pub deserialize_report : Bytes → Option WorkerPrimaryMessage
  pub deserialize_command : Bytes → Option PrimaryWorkerMessage

-- The channels of the three handlers, the oldest message first, and the number of acknowledgements.
pub record Channels : Type 0 where
  pub tx_batch_maker : List Transaction
  pub tx_helper : List (List Digest × PublicKey)
  pub tx_processor : List Bytes
  pub tx_synchronizer : List PrimaryWorkerMessage
  pub acks : ℕ

abbrev pub no_messages : Channels
no_messages = record {
  tx_batch_maker = [];
  tx_helper = [];
  tx_processor = [];
  tx_synchronizer = [];
  acks = 0;
}

-- `TxReceiverHandler`: any message is a transaction.
unfoldable pub dispatch_transaction : Bytes → Channels → Dispatched × Channels
dispatch_transaction message ch =
    (handled, record ch { tx_batch_maker = ch.tx_batch_maker ++ message ∷ [] })

module _ (w : Wire) where
  -- `WorkerReceiverHandler`: a batch goes on as it came, serialized. What cannot be read is only logged.
  unfoldable pub dispatch_worker : Bytes → Channels → Dispatched × Channels
  dispatch_worker serialized ch =
      let ch' : Channels = record ch { acks = suc ch.acks } in
      (
        handled,
        elim (w.deserialize_message serialized) [
          | none ↦ ch'
          | some message ↦ elim message [
            | batch b ↦ record ch' { tx_processor = ch'.tx_processor ++ serialized ∷ [] }
            | batch_request missing requestor ↦ record ch' {
              tx_helper = ch'.tx_helper ++ (missing, requestor) ∷ [];
            }
          ]
        ],
      )

  -- `PrimaryReceiverHandler`.
  unfoldable pub dispatch_primary : Bytes → Channels → Dispatched × Channels
  dispatch_primary serialized ch = (
    handled,
    elim (w.deserialize_command serialized) [
      | none ↦ ch
      | some message ↦ record ch { tx_synchronizer = ch.tx_synchronizer ++ message ∷ [] }
    ],
  )
