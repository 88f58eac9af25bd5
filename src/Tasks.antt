-- ===== src/Tasks.antt =====
-- The small tasks of a primary: primary/src/garbage_collector.rs, primary/src/helper.rs and
-- primary/src/payload_receiver.rs.
pub mod Collector
pub mod Replies
pub mod Node
pub mod Receivers
pub mod Arrival
use sailfish_test.Prelude.{ℕ, List, [], ◌∷◌, ◌++◌, map, Option, none, some, ltb, if◌then◌else◌}
use sailfish_test.Crypto.{Digest, PublicKey}
use sailfish_test.Config.{
  Committee, SocketAddr, WorkerId, ConfigResult, PrimaryAddresses, our_workers, primary,
}
use sailfish_test.Config
use sailfish_test.Messages.{DagResult, Round, Certificate, round_of}
use sailfish_test.Messages
use sailfish_test.Core.{Codec, Bytes, Store}
use sailfish_test.Core.Sync.{read}

-- The garbage collector. `consensus_round` is shared with the core and the header waiter.
pub record GarbageCollector : Type 0 where
  pub consensus_round : Round
  pub last_committed_round : Round
  pub addresses : List SocketAddr
  -- The rounds of the `Cleanup` messages broadcast to the workers so far, the oldest first.
  pub sent : List Round

-- `GarbageCollector::spawn`, where the shared round is still 0. `none` is the panic for a name that is
-- not in the committee.
unfoldable pub spawn_collector : PublicKey → Committee → Option GarbageCollector
spawn_collector name c = elim (our_workers c name) [
  | Config.ConfigResult.err e ↦ none
  | Config.ConfigResult.ok workers ↦ some (record {
    consensus_round = 0;
    last_committed_round = 0;
    addresses = map (λ x. x.primary_to_worker) workers;
    sent = [];
  })
]

unfoldable pub collect : Certificate → GarbageCollector → GarbageCollector
collect x g =
    if ltb g.last_committed_round (round_of x)
    then record g {
      last_committed_round = round_of x;
      consensus_round = round_of x;
      sent = g.sent ++ round_of x ∷ [];
    }
    else g

unfoldable pub collect_all : List Certificate → GarbageCollector → GarbageCollector
unfolding collect
collect_all [] g = g
collect_all (x ∷ xs) g = collect_all xs (collect x g)

-- The payload receiver: the batches of others are noted in the store with an empty value.
unfoldable pub receive_payload : Digest → WorkerId → Store → Store
receive_payload d w s = record s { batches = (d, w) ∷ s.batches }

module _ (b : Codec) where
  -- The loop over the digests of a request; a read that fails is only logged. `none` is the panic for
  -- an entry that is not a certificate.
  unfoldable pub reply : Store → List Digest → Option (List Certificate)
  reply s [] = some []
  reply s (d ∷ ds) =
      let rest = reply s ds in
      elim (read s d) [
        | Messages.DagResult.err e ↦ rest
        | Messages.DagResult.ok found ↦ elim found [
          | none ↦ rest
          | some bytes ↦ elim (b.deserialize_certificate bytes) [
            | none ↦ none
            | some x ↦ elim rest [ none ↦ none | some xs ↦ some (x ∷ xs) ]
          ]
        ]
      ]

  -- The helper: what is sent for a request, each certificate by itself, and to whom.
  unfoldable pub help :
      Committee → Store → List Digest → PublicKey → Option (List (SocketAddr × Certificate))
  unfolding reply
  help c s digests requestor = elim (primary c requestor) [
    | Config.ConfigResult.err e ↦ some []
    | Config.ConfigResult.ok a ↦ elim (reply s digests) [
      | none ↦ none
      | some xs ↦ some (map (λ x. (a.primary_to_primary, x)) xs)
    ]
  ]
