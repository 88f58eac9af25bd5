-- ===== src/Tasks/Receivers.antt =====
-- primary/src/primary.rs: the handlers of the messages that a primary receives from the network.
use sailfish_test.Prelude.{suc, ℕ, List, [], ◌∷◌, ◌++◌, Option, none, some}
use sailfish_test.Crypto.{Digest, PublicKey}
use sailfish_test.Config.{WorkerId}
use sailfish_test.Core.{PrimaryMessage}
use sailfish_test.Core
use sailfish_test.Receiver.{Bytes, Dispatched, handled, failed}
use sailfish_test.Worker.{our_batch, others_batch}
use sailfish_test.Worker.Receivers.{Wire}

-- The channels of the two handlers, the oldest message first, and the number of acknowledgements.
pub record Channels : Type 0 where
  pub tx_primary_messages : List PrimaryMessage
  pub tx_cert_requests : List (List Digest × PublicKey)
  pub tx_our_digests : List (Digest × WorkerId)
  pub tx_others_digests : List (Digest × WorkerId)
  pub acks : ℕ

abbrev pub no_messages : Channels
no_messages = record {
  tx_primary_messages = [];
  tx_cert_requests = [];
  tx_our_digests = [];
  tx_others_digests = [];
  acks = 0;
}

-- `PrimaryReceiverHandler`, with the decoder of bincode: requests of certificates are for the helper, all
-- else is for the core.
unfoldable pub dispatch_primary :
    (Bytes → Option PrimaryMessage) → Bytes → Channels → Dispatched × Channels
dispatch_primary deserialize serialized ch =
    let ch' : Channels = record ch { acks = suc ch.acks } in
    elim (deserialize serialized) [
      | none ↦ (failed, ch')
      | some message ↦ (handled, route message ch')
    ]
  where
    route : PrimaryMessage → Channels → Channels
    route (Core.PrimaryMessage.certificates_request missing requestor) ch = record ch {
      tx_cert_requests = ch.tx_cert_requests ++ (missing, requestor) ∷ [];
    }
    route request ch = record ch { tx_primary_messages = ch.tx_primary_messages ++ request ∷ [] }

-- `WorkerReceiverHandler`.
unfoldable pub dispatch_worker : Wire → Bytes → Channels → Dispatched × Channels
dispatch_worker w serialized ch = elim (w.deserialize_report serialized) [
  | none ↦ (failed, ch)
  | some message ↦ (
    handled,
    elim message [
      | our_batch d i ↦ record ch { tx_our_digests = ch.tx_our_digests ++ (d, i) ∷ [] }
      | others_batch d i ↦ record ch { tx_others_digests = ch.tx_others_digests ++ (d, i) ∷ [] }
    ],
  )
]
