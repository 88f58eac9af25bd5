-- ===== src/Worker.antt =====
-- worker/src: the batches of transactions. The messages, and the tasks that only store and pass on:
-- worker/src/processor.rs, worker/src/helper.rs and worker/src/primary_connector.rs.
pub mod BatchMaker
pub mod QuorumWaiter
pub mod Synchronizer
pub mod Storing
pub mod Receivers
pub mod Node
pub mod Availability
use sailfish_test.Prelude.{
  ℕ, List, [], ◌∷◌, map, Bool, true, false, Option, none, some, get, insert, if◌then◌else◌,
}
use sailfish_test.Crypto.{Digest, PublicKey, Primitives}
use sailfish_test.Config.{Committee, SocketAddr, WorkerId, ConfigResult, worker}
use sailfish_test.Config
use sailfish_test.Messages.{Round}

abbrev pub Bytes : Type 0
Bytes = List ℕ

abbrev pub Transaction : Type 0
Transaction = Bytes

abbrev pub Batch : Type 0
Batch = List Transaction

pub data WorkerMessage : Type 0 where
  batch : Batch → WorkerMessage
  batch_request : List Digest → PublicKey → WorkerMessage

pub data WorkerPrimaryMessage : Type 0 where
  our_batch : Digest → WorkerId → WorkerPrimaryMessage
  others_batch : Digest → WorkerId → WorkerPrimaryMessage

pub data PrimaryWorkerMessage : Type 0 where
  synchronize : List Digest → PublicKey → PrimaryWorkerMessage
  cleanup : Round → PrimaryWorkerMessage

-- store/src/lib.rs as a worker sees it: batches under their digests, and whether the database fails.
pub record Store : Type 0 where
  pub batches : List (Digest × Bytes)
  pub broken : Bool

-- One read: `none` for an error, which is only logged.
unfoldable pub read : Store → Digest → Option (Option Bytes)
read s d = if s.broken then none else some (get d s.batches)

-- The processor: hash the serialized batch, store it, and tell the primary, by way of the connector.
unfoldable pub process : Primitives → WorkerId → Bool → Bytes → Store → Store × WorkerPrimaryMessage
process p id own_digest serialized s =
    let digest = p.sha512 serialized in
    (
      record s { batches = insert digest serialized s.batches },
      if own_digest then our_batch digest id else others_batch digest id,
    )

-- The loop of the helper over the digests of a request.
unfoldable pub reply : Store → List Digest → List Bytes
unfolding read
reply s [] = []
reply s (d ∷ ds) =
    let rest = reply s ds in
    elim (read s d) [
      | none ↦ rest
      | some found ↦ elim found [ none ↦ rest | some bytes ↦ bytes ∷ rest ]
    ]

-- The helper: what is sent for a request of batches, and to whom; nothing to a stranger.
unfoldable pub help :
    WorkerId → Committee → Store → List Digest → PublicKey → List (SocketAddr × Bytes)
unfolding reply
help id c s digests requestor = elim (worker c requestor id) [
  | Config.ConfigResult.err e ↦ []
  | Config.ConfigResult.ok a ↦ map (λ bytes. (a.worker_to_worker, bytes)) (reply s digests)
]

-- The primary connector: each digest message goes to the primary, in the order of arrival.
unfoldable pub connect :
    SocketAddr → List WorkerPrimaryMessage → List (SocketAddr × WorkerPrimaryMessage)
connect primary_address messages = map (λ m. (primary_address, m)) messages
